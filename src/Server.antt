-- ===== src/Server.antt =====
-- What the server keeps for its clients and managers, and how it knows them again.
-- An `Endpoint` of NeuronCore/Platform/Endpoint.h is an address of 32 bits with a port of 16.
pub mod Table
pub mod Limit
pub mod Sessions
pub mod Admin
mod Tests
use deepspace_outpost_dx.Base.{ℕ, ◌+◌, ◌*◌, ◌^◌}

pub record NetEndpoint : Type 0 where
  pub address : ℕ
  pub port : ℕ

-- `EndpointKey`; the two parts do not overlap, so the disjunction is a sum.
unfoldable pub endpoint_key : NetEndpoint → ℕ
endpoint_key ep = ep.address * 2 ^ 16 + ep.port
