-- ===== src/Snapshot/Stream.antt =====
-- NeuronCore/SnapshotStream.h: keyframes and deltas against acknowledged snapshots.
pub mod Steps
use deepspace_outpost_dx.Base.{
  leb, ◌==◌, if◌then◌else◌, length, drop, ℕ, ◌+◌, ◌-◌, ◌%◌, ◌^◌, Bool, true, false, not, ◌&&◌, ◌||◌,
  Option, none, some, List, [], ◌∷◌, ◌++◌,
}
use deepspace_outpost_dx.Wire.{open_reader}
use deepspace_outpost_dx.Channel.{safe_udp_payload}
use deepspace_outpost_dx.Snapshot.Quantize.{Floats}
use deepspace_outpost_dx.Snapshot.World.{snapshot_version, WorldSnapshot, read_snapshot}
use deepspace_outpost_dx.Snapshot.Delta.{
  delta_version, peek_snapshot_version, apply_delta, snapshot_diff, write_snapshot_delta,
  read_snapshot_delta,
}
use deepspace_outpost_dx.Snapshot.Packetizer.{packetize_snapshot}

abbrev pub keyframe_interval : ℕ
keyframe_interval = 30

abbrev pub baseline_ring : ℕ
baseline_ring = 48

pub record RingEntry (F : Type 0) : Type 0 where
  pub tick : ℕ
  pub snap : WorldSnapshot F

module _ {F : Type 0} where
  unfoldable pub find_in_ring : List (RingEntry F) → ℕ → Option (WorldSnapshot F)
  find_in_ring [] t = none
  find_in_ring (e ∷ es) t = if e.tick == t then some e.snap else find_in_ring es t

  -- The loop drops the oldest entries while there are more than 48.
  unfoldable pub push_ring : WorldSnapshot F → List (RingEntry F) → List (RingEntry F)
  push_ring s ring =
      let longer = ring ++ record { tick = s.tick; snap = s } ∷ [] in
      drop (length longer - baseline_ring) longer

pub record Encoder (F : Type 0) : Type 0 where
  pub ring : List (RingEntry F)
  pub since_keyframe : ℕ
  pub last_was_delta : Bool

pub record Decoder (F : Type 0) : Type 0 where
  pub ring : List (RingEntry F)
  pub latest_tick : ℕ
  pub have_latest : Bool

module _ {F : Type 0} where
  abbrev pub initial_encoder : Encoder F
  initial_encoder = record { ring = []; since_keyframe = keyframe_interval; last_was_delta = false }

  abbrev pub initial_decoder : Decoder F
  initial_decoder = record { ring = []; latest_tick = 0; have_latest = false }

  unfoldable pub baseline_for : ℕ → Encoder F → Option (WorldSnapshot F)
  baseline_for acked e =
      let due = leb keyframe_interval e.since_keyframe in
      if not due && not (acked == 0) then find_in_ring e.ring acked else none

  unfoldable pub store : WorldSnapshot F → Decoder F → Decoder F
  store s d =
      let newer = not d.have_latest || leb d.latest_tick s.tick in
      record {
        ring = push_ring s d.ring;
        latest_tick = if newer then s.tick else d.latest_tick;
        have_latest = if newer then true else d.have_latest;
      }

  unfoldable pub ack_tick : Decoder F → ℕ
  ack_tick d = if d.have_latest then d.latest_tick else 0

module _ (fl : Floats) where
  open fl use {F}

  -- The delta packet, if there is a baseline and it fits a datagram.
  unfoldable pub delta_datagram : WorldSnapshot F → Option (WorldSnapshot F) → Option (List ℕ)
  delta_datagram current none = none
  delta_datagram current (some base) =
      let bytes = write_snapshot_delta fl (snapshot_diff fl base current) [] in
      if leb (length bytes) safe_udp_payload then some bytes else none

  unfoldable pub encode : WorldSnapshot F → ℕ → Encoder F → List (List ℕ) × Encoder F
  encode current acked e = elim (delta_datagram current (baseline_for acked e)) [
    | some bytes ↦ (
      bytes ∷ [],
      record {
        ring = push_ring current e.ring;
        since_keyframe = (e.since_keyframe + 1) % 2 ^ 32;
        last_was_delta = true;
      },
    )
    | none ↦ (
      packetize_snapshot fl current safe_udp_payload,
      record { ring = push_ring current e.ring; since_keyframe = 0; last_was_delta = false },
    )
  ]

  unfoldable pub decode_full : List ℕ → Decoder F → Option (WorldSnapshot F) × Decoder F
  decode_full bytes d = elim (read_snapshot fl (open_reader bytes)) [
    | none ↦ (none, d)
    | some s ↦ (some s, if s.complete then store s d else d)
  ]

  unfoldable pub decode_delta : List ℕ → Decoder F → Option (WorldSnapshot F) × Decoder F
  decode_delta bytes d = elim (read_snapshot_delta fl (open_reader bytes)) [
    | none ↦ (none, d)
    | some delta ↦ elim (find_in_ring d.ring delta.baseline_tick) [
      | none ↦ (none, d)
      | some base ↦ (some (apply_delta base delta), store (apply_delta base delta) d)
    ]
  ]

  unfoldable pub decode : List ℕ → Decoder F → Option (WorldSnapshot F) × Decoder F
  decode bytes d =
      let version = peek_snapshot_version bytes in
      if version == snapshot_version
      then decode_full bytes d
      else if version == delta_version
      then decode_delta bytes d
      else (none, d)
