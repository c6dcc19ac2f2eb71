-- ===== src/Messages/Defs.antt =====
-- NeuronCore/Messages/MessageTraits.h and MessageId.h: what a message says of itself besides its fields.
pub mod Admin
pub mod Core
pub mod Player
pub mod World
pub mod Station
use deepspace_outpost_dx.Base.{
  ◌==◌, if◌then◌else◌, ==_refl, ℕ, ◌/◌, ◌%◌, ◌^◌, ◌≡◌, Bool, true, false, not, Option, none, some,
  List, [], ◌∷◌,
}
use deepspace_outpost_dx.Endpoint
use deepspace_outpost_dx.Endpoint.{Lane, Endpoint, send_raw}
use deepspace_outpost_dx.Channel.{ReliableMessage}
use deepspace_outpost_dx.Messages.RoundTrip.{decode-encode}
use deepspace_outpost_dx.Messages.Bytes.{Fits}
use deepspace_outpost_dx.Messages.{Field, no_fields, both, Value, encode, decode}

pub data MessageScope : Type 0 where
  local_only wire session_control debug_only tooling : MessageScope

pub data MessageKind : Type 0 where
  command event : MessageKind

pub data Direction : Type 0 where
  nowhere client_to_server server_to_client both_ways : Direction

-- A message type: its traits, which are its `MessageInfo` without the name, and its fields.
pub record Message : Type 0 where
  pub id : ℕ
  pub scope : MessageScope
  pub kind : MessageKind
  pub lane : Lane
  pub dir : Direction
  pub fields : Field

unfoldable pub is_wire_scope : MessageScope → Bool
is_wire_scope wire = true
is_wire_scope session_control = true
is_wire_scope _ = false

-- The bit 0x8000 of a number of 16 bits.
unfoldable pub is_non_wire_id : ℕ → Bool
is_non_wire_id id = not (id / 2 ^ 15 % 2 == 0)

abbrev pub fields_of : List Field → Field
fields_of [] = no_fields
fields_of (f ∷ fs) = both f (fields_of fs)

unfoldable pub raw_message : (m : Message) → Value m.fields → ReliableMessage
raw_message m v = record { type = m.id; payload = encode m.fields v }

-- `Send`, which takes the lane from the message.
unfoldable pub send : (m : Message) → Value m.fields → Endpoint.Endpoint → Endpoint.Endpoint
send m v e = (send_raw m.lane (raw_message m v) e).1

unfoldable pub try_decode : (m : Message) → ReliableMessage → Option (Value m.fields)
try_decode m raw = if raw.type == m.id then decode m.fields raw.payload else none

-- A message whose values fit its fields is decoded, by the type that sent it, as it was.
pub try_decode_sent :
    (m : Message) (v : Value m.fields) → Fits m.fields v → try_decode m (raw_message m v) ≡ some v
unfolding try_decode raw_message
try_decode_sent m v h = rw (==_refl m.id) (decode-encode m.fields v h)
