-- ===== src/Messages/Defs/Player.antt =====
-- NeuronCore/Messages/Defs: PlayerSession.h. An enumeration travels as its number.
use deepspace_outpost_dx.Base.{[], ◌∷◌}
use deepspace_outpost_dx.Endpoint.{control, gameplay}
use deepspace_outpost_dx.Messages.{u8, u16, u32, u64, i32, text, vector}
use deepspace_outpost_dx.Messages.Defs.{
  wire, session_control, command, event, client_to_server, server_to_client, Message, fields_of,
}

abbrev pub client_hello : Message
client_hello = record {
  id = 0x0002;
  scope = session_control;
  kind = command;
  lane = control;
  dir = client_to_server;
  fields = fields_of (u32 ∷ text ∷ []);
}

abbrev pub hello_ack : Message
hello_ack = record {
  id = 0x0003;
  scope = session_control;
  kind = event;
  lane = control;
  dir = server_to_client;
  fields = fields_of (u64 ∷ u32 ∷ u32 ∷ u16 ∷ []);
}

abbrev pub hello_reject : Message
hello_reject = record {
  id = 0x0004;
  scope = session_control;
  kind = event;
  lane = control;
  dir = server_to_client;
  fields = fields_of (u8 ∷ []);
}

abbrev pub player_info : Message
player_info = record {
  id = 0x0301;
  scope = wire;
  kind = event;
  lane = gameplay;
  dir = server_to_client;
  fields = fields_of (u32 ∷ u32 ∷ text ∷ i32 ∷ []);
}

abbrev pub player_status : Message
player_status = record {
  id = 0x0302;
  scope = wire;
  kind = event;
  lane = gameplay;
  dir = server_to_client;
  fields = fields_of (i32 ∷ i32 ∷ i32 ∷ i32 ∷ i32 ∷ i32 ∷ i32 ∷ i32 ∷ i32 ∷ i32 ∷ i32 ∷ []);
}

abbrev pub cargo_manifest : Message
cargo_manifest = record {
  id = 0x0303;
  scope = wire;
  kind = event;
  lane = gameplay;
  dir = server_to_client;
  fields = fields_of ((vector i32) ∷ []);
}
