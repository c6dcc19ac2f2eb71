-- ===== src/Messages/Defs/Core.antt =====
-- NeuronCore/Messages/Defs: CoreEvents.h, EquipmentEvents.h, ExplosionAt.h, InputActions.h, InputCommand.h, TimeSync.h. An enumeration travels as its number.
use deepspace_outpost_dx.Base.{[], ◌∷◌}
use deepspace_outpost_dx.Endpoint.{control, gameplay, unreliable}
use deepspace_outpost_dx.Messages.{u8, u32, i64, text}
use deepspace_outpost_dx.Messages.Defs.{
  local_only, wire, session_control, command, event, nowhere, client_to_server, server_to_client,
  both_ways, Message, fields_of,
}

abbrev pub assign_player : Message
assign_player = record {
  id = 0x0001;
  scope = session_control;
  kind = event;
  lane = control;
  dir = server_to_client;
  fields = fields_of (u32 ∷ []);
}

abbrev pub entity_despawn : Message
entity_despawn = record {
  id = 0x0200;
  scope = wire;
  kind = event;
  lane = gameplay;
  dir = server_to_client;
  fields = fields_of (u32 ∷ []);
}

abbrev pub entity_death : Message
entity_death = record {
  id = 0x0201;
  scope = wire;
  kind = event;
  lane = gameplay;
  dir = server_to_client;
  fields = fields_of (u32 ∷ u32 ∷ []);
}

abbrev pub chat : Message
chat = record {
  id = 0x0300;
  scope = wire;
  kind = event;
  lane = gameplay;
  dir = both_ways;
  fields = fields_of (u32 ∷ text ∷ []);
}

abbrev pub ecm_pulse : Message
ecm_pulse = record {
  id = 0x0202;
  scope = wire;
  kind = event;
  lane = gameplay;
  dir = server_to_client;
  fields = fields_of (u32 ∷ []);
}

abbrev pub escape_pod_used : Message
escape_pod_used = record {
  id = 0x0203;
  scope = wire;
  kind = event;
  lane = gameplay;
  dir = server_to_client;
  fields = fields_of (u32 ∷ []);
}

abbrev pub explosion_at : Message
explosion_at = record {
  id = 0x1005;
  scope = wire;
  kind = event;
  lane = gameplay;
  dir = server_to_client;
  fields = fields_of (i64 ∷ i64 ∷ i64 ∷ u8 ∷ []);
}

abbrev pub action_triggered : Message
action_triggered = record {
  id = 0x8200;
  scope = local_only;
  kind = command;
  lane = unreliable;
  dir = nowhere;
  fields = fields_of (u8 ∷ u32 ∷ []);
}

abbrev pub input_command : Message
input_command = record {
  id = 0x0100;
  scope = wire;
  kind = command;
  lane = unreliable;
  dir = client_to_server;
  fields = fields_of (u32 ∷ u32 ∷ []);
}

abbrev pub ping : Message
ping = record {
  id = 0x0006;
  scope = session_control;
  kind = command;
  lane = control;
  dir = client_to_server;
  fields = fields_of (u32 ∷ u32 ∷ []);
}

abbrev pub pong : Message
pong = record {
  id = 0x0007;
  scope = session_control;
  kind = event;
  lane = control;
  dir = server_to_client;
  fields = fields_of (u32 ∷ u32 ∷ []);
}
