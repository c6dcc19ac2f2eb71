-- ===== src/Messages/Defs/Station.antt =====
-- NeuronCore/StationProtocol.h. An enumeration travels as its number.
use deepspace_outpost_dx.Base.{[], ◌∷◌}
use deepspace_outpost_dx.Endpoint.{gameplay}
use deepspace_outpost_dx.Messages.{u8, u16, u32, i32}
use deepspace_outpost_dx.Messages.Defs.{
  wire, command, event, client_to_server, server_to_client, Message, fields_of,
}

abbrev pub station_request : Message
station_request = record {
  id = 0x0400;
  scope = wire;
  kind = command;
  lane = gameplay;
  dir = client_to_server;
  fields = fields_of (u8 ∷ u16 ∷ u16 ∷ u32 ∷ []);
}

abbrev pub station_response : Message
station_response = record {
  id = 0x0401;
  scope = wire;
  kind = event;
  lane = gameplay;
  dir = server_to_client;
  fields = fields_of (u8 ∷ u8 ∷ i32 ∷ u16 ∷ u16 ∷ []);
}
