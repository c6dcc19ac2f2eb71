-- ===== src/Messages/Defs/World.antt =====
-- NeuronCore/Messages/Defs: GalaxyChunks.h, SceneChunks.h, Strategic.h, Travel.h, UnitOrder.h. An enumeration travels as its number.
use deepspace_outpost_dx.Base.{[], ◌∷◌}
use deepspace_outpost_dx.Endpoint.{gameplay, bulk}
use deepspace_outpost_dx.Messages.{Field, u8, u16, u32, i32, i64, text, vector}
use deepspace_outpost_dx.Messages.Defs.{
  wire, command, event, client_to_server, server_to_client, Message, fields_of,
}

abbrev pub galaxy_system_entry : Field
galaxy_system_entry = fields_of (u32 ∷ i64 ∷ i64 ∷ i64 ∷ text ∷ u8 ∷ u8 ∷ u8 ∷ u16 ∷ u16 ∷ [])

abbrev pub galaxy_chunk_request : Message
galaxy_chunk_request = record {
  id = 0x1002;
  scope = wire;
  kind = command;
  lane = bulk;
  dir = client_to_server;
  fields = fields_of (u32 ∷ u16 ∷ []);
}

abbrev pub galaxy_chunk : Message
galaxy_chunk = record {
  id = 0x1003;
  scope = wire;
  kind = event;
  lane = bulk;
  dir = server_to_client;
  fields = fields_of (u32 ∷ u32 ∷ (vector galaxy_system_entry) ∷ []);
}

abbrev pub scene_poi_entry : Field
scene_poi_entry = fields_of (u32 ∷ u8 ∷ i64 ∷ i64 ∷ i64 ∷ i32 ∷ [])

abbrev pub scene_chunk_request : Message
scene_chunk_request = record {
  id = 0x1020;
  scope = wire;
  kind = command;
  lane = bulk;
  dir = client_to_server;
  fields = fields_of (u32 ∷ []);
}

abbrev pub scene_chunk : Message
scene_chunk = record {
  id = 0x1021;
  scope = wire;
  kind = event;
  lane = bulk;
  dir = server_to_client;
  fields = fields_of (u32 ∷ (vector scene_poi_entry) ∷ []);
}

abbrev pub mining_tick : Message
mining_tick = record {
  id = 0x1022;
  scope = wire;
  kind = event;
  lane = gameplay;
  dir = server_to_client;
  fields = fields_of (u32 ∷ u32 ∷ u8 ∷ i32 ∷ []);
}

abbrev pub strategic_summary : Message
strategic_summary = record {
  id = 0x1004;
  scope = wire;
  kind = event;
  lane = gameplay;
  dir = server_to_client;
  fields = fields_of (u32 ∷ u16 ∷ u16 ∷ u8 ∷ []);
}

abbrev pub travel_request : Message
travel_request = record {
  id = 0x1000;
  scope = wire;
  kind = command;
  lane = gameplay;
  dir = client_to_server;
  fields = fields_of (u8 ∷ u32 ∷ u32 ∷ []);
}

abbrev pub travel_response : Message
travel_response = record {
  id = 0x1001;
  scope = wire;
  kind = event;
  lane = gameplay;
  dir = server_to_client;
  fields = fields_of (u8 ∷ u8 ∷ []);
}

abbrev pub unit_order : Message
unit_order = record {
  id = 0x1010;
  scope = wire;
  kind = command;
  lane = gameplay;
  dir = client_to_server;
  fields = fields_of (u32 ∷ u8 ∷ u32 ∷ i64 ∷ i64 ∷ i64 ∷ []);
}

abbrev pub unit_order_ack : Message
unit_order_ack = record {
  id = 0x1011;
  scope = wire;
  kind = event;
  lane = gameplay;
  dir = server_to_client;
  fields = fields_of (u32 ∷ u8 ∷ u8 ∷ []);
}

abbrev pub ability_request : Message
ability_request = record {
  id = 0x1014;
  scope = wire;
  kind = command;
  lane = gameplay;
  dir = client_to_server;
  fields = fields_of (u8 ∷ u32 ∷ []);
}
