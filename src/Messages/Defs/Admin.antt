-- ===== src/Messages/Defs/Admin.antt =====
-- NeuronCore/Messages/Defs: Admin.h. An enumeration travels as its number.
use deepspace_outpost_dx.Base.{[], ◌∷◌}
use deepspace_outpost_dx.Endpoint.{control, gameplay}
use deepspace_outpost_dx.Messages.{u8, u16, u32, u64, i32, f32, text}
use deepspace_outpost_dx.Messages.Defs.{
  wire, session_control, command, event, client_to_server, server_to_client, Message, fields_of,
}

abbrev pub admin_hello : Message
admin_hello = record {
  id = 0x0F00;
  scope = session_control;
  kind = command;
  lane = control;
  dir = client_to_server;
  fields = fields_of (u32 ∷ text ∷ []);
}

abbrev pub admin_hello_ack : Message
admin_hello_ack = record {
  id = 0x0F01;
  scope = session_control;
  kind = event;
  lane = control;
  dir = server_to_client;
  fields = fields_of (u64 ∷ u16 ∷ u32 ∷ u32 ∷ u32 ∷ u16 ∷ []);
}

abbrev pub admin_hello_reject : Message
admin_hello_reject = record {
  id = 0x0F02;
  scope = session_control;
  kind = event;
  lane = control;
  dir = server_to_client;
  fields = fields_of (u8 ∷ []);
}

abbrev pub admin_player_info : Message
admin_player_info = record {
  id = 0x0F03;
  scope = wire;
  kind = event;
  lane = gameplay;
  dir = server_to_client;
  fields = fields_of (u32 ∷ u32 ∷ text ∷ u32 ∷ u16 ∷ u32 ∷ i32 ∷ u8 ∷ u32 ∷ []);
}

abbrev pub admin_player_gone : Message
admin_player_gone = record {
  id = 0x0F04;
  scope = wire;
  kind = event;
  lane = gameplay;
  dir = server_to_client;
  fields = fields_of (u32 ∷ u8 ∷ []);
}

abbrev pub admin_event : Message
admin_event = record {
  id = 0x0F05;
  scope = wire;
  kind = event;
  lane = gameplay;
  dir = server_to_client;
  fields = fields_of (u32 ∷ u32 ∷ u8 ∷ u32 ∷ text ∷ []);
}

abbrev pub admin_health : Message
admin_health = record {
  id = 0x0F06;
  scope = wire;
  kind = event;
  lane = gameplay;
  dir = server_to_client;
  fields = fields_of (u32 ∷ u32 ∷ f32 ∷ f32 ∷ u32 ∷ u32 ∷ u32 ∷ u64 ∷ u64 ∷ []);
}
