-- ===== src/Snapshot/Stream/Steps.antt =====
-- The steps of the encoder and of the decoder of the snapshot stream.
use deepspace_outpost_dx.Base.{
  Option-cases, length, All, length-drop, ℕ, ◌+◌, ◌-◌, ◌%◌, ◌^◌, ◌≤◌, ◌<◌, ◌≡◌, refl, sym, ap, ◌∙◌,
  inl, inr, true, false, Option, none, some, List, [], ◌∷◌, ◌++◌, append-nil, arith,
}
use deepspace_outpost_dx.Wire.{open_reader}
use deepspace_outpost_dx.Channel.{safe_udp_payload}
use deepspace_outpost_dx.Snapshot.Quantize.{Floats}
use deepspace_outpost_dx.Snapshot.World.{peek_magic, WorldSnapshot}
use deepspace_outpost_dx.Snapshot.Delta.{
  delta_version, DeltaSnapshot, peek_snapshot_version, apply_delta, write_snapshot_delta,
  read_snapshot_delta,
}
use deepspace_outpost_dx.Snapshot.Delta.Codec.{
  FitsDelta, write_snapshot_delta_lem, delta_as_sent, read_snapshot_delta-write_snapshot_delta,
}
use deepspace_outpost_dx.Snapshot.Packetizer.{packetize_snapshot}
use deepspace_outpost_dx.Snapshot.Packetizer.Cover.{FitsParts, packetize-fits}
use deepspace_outpost_dx.Snapshot.Stream.{
  keyframe_interval, baseline_ring, RingEntry, find_in_ring, push_ring, Encoder, Decoder,
  baseline_for, store, ack_tick, delta_datagram, encode, decode_full, decode_delta, decode,
}

length-push_ring :
    {F : Type 0} (s : WorldSnapshot F) (ring : List (RingEntry F))
    → length (push_ring s ring) ≤ baseline_ring
unfolding push_ring
length-push_ring s ring = omega (
  arith,
  length-drop (length (ring ++ record { tick = s.tick; snap = s } ∷ []) - baseline_ring)
      (ring ++ record { tick = s.tick; snap = s } ∷ []),
)

-- The rings are bounded, and a keyframe is due in time.
pub record IsGoodEncoder {F : Type 0} (e : Encoder F) : Type 0 where
  pub bounded : length e.ring ≤ baseline_ring
  pub in_time : e.since_keyframe ≤ keyframe_interval

module _ (fl : Floats) where
  open fl use {F}

  -- What one call of Encode does.
  pub record Encodes (current : WorldSnapshot F) (e e' : Encoder F) (out : List (List ℕ))
      : Type 0 where
    pub good : IsGoodEncoder e'
    pub counted :
        e'.last_was_delta ≡ true → (e'.since_keyframe ≡ e.since_keyframe + 1) × (length out ≡ 1)
    pub reset :
        e'.last_was_delta ≡ false
        → (e'.since_keyframe ≡ 0) × (out ≡ packetize_snapshot fl current safe_udp_payload)
    pub short : All (λ d. length d ≤ safe_udp_payload) out

  delta_short :
      (current : WorldSnapshot F) (base : Option (WorldSnapshot F)) (bytes : List ℕ)
      → delta_datagram fl current base ≡ some bytes
      → length bytes ≤ safe_udp_payload
  unfolding delta_datagram
  delta_short current none bytes h = cc
  delta_short current (some base) bytes h = ground arith

  due_none :
      (current : WorldSnapshot F) (acked : ℕ) (e : Encoder F) (bytes : List ℕ)
      → delta_datagram fl current (baseline_for acked e) ≡ some bytes
      → e.since_keyframe < keyframe_interval
  unfolding delta_datagram baseline_for
  due_none current acked e bytes h = ground arith

  abbrev kept : WorldSnapshot F → Encoder F → Encoder F
  kept current e = record {
    ring = push_ring current e.ring;
    since_keyframe = 0;
    last_was_delta = false;
  }

  abbrev counted_up : WorldSnapshot F → Encoder F → Encoder F
  counted_up current e = record {
    ring = push_ring current e.ring;
    since_keyframe = (e.since_keyframe + 1) % 2 ^ 32;
    last_was_delta = true;
  }

  encode_full :
      (current : WorldSnapshot F) (acked : ℕ) (e : Encoder F)
      → delta_datagram fl current (baseline_for acked e) ≡ none
      → encode fl current acked e ≡ (packetize_snapshot fl current safe_udp_payload, kept current e)
  unfolding encode
  encode_full current acked e h = rw (h, encode)

  encode_delta :
      (current : WorldSnapshot F) (acked : ℕ) (e : Encoder F) (bytes : List ℕ)
      → delta_datagram fl current (baseline_for acked e) ≡ some bytes
      → encode fl current acked e ≡ (bytes ∷ [], counted_up current e)
  unfolding encode
  encode_delta current acked e bytes h = rw (h, encode)

  -- One call of Encode, on a snapshot whose tick, reference point and entities fit their widths:
  -- the ring keeps at most 48 baselines and the count since the last keyframe stays at most 30; a
  -- delta is one datagram and advances the count, anything else is the full snapshot and sets the
  -- count to 0; every datagram is at most 1200 bytes long.
  pub encode-Encodes :
      (current : WorldSnapshot F) (acked : ℕ) (e : Encoder F)
      → FitsParts fl current
      → IsGoodEncoder e
      → Encodes current e (encode fl current acked e).1 (encode fl current acked e).0
  encode-Encodes current acked e f g =
      elim (Option-cases (delta_datagram fl current (baseline_for acked e))) [
        | inl full ↦ rw (encode_full current acked e full) (record {
          good = record { bounded = length-push_ring current e.ring; in_time = omega arith };
          counted = λ h. cc;
          reset = λ h. (refl, refl);
          short = packetize-fits fl current safe_udp_payload f (omega arith) (omega arith);
        })
        | inr (bytes, small) ↦
            let fresh = due_none current acked e bytes small in
            rw (encode_delta current acked e bytes small) (record {
              good = record { bounded = length-push_ring current e.ring; in_time = omega arith };
              counted = λ h. (omega arith, refl);
              reset = λ h. cc;
              short = (delta_short current (baseline_for acked e) bytes small, tt);
            })
      ]

  -- Whatever bytes a viewer decodes, the tick that it acknowledges does not go back.
  pub ack_tick-decode :
      (bytes : List ℕ) (d : Decoder F) → ack_tick d ≤ ack_tick (decode fl bytes d).1
  unfolding ack_tick decode decode_full decode_delta store
  ack_tick-decode bytes d = ground arith

  peek_delta :
      (d : DeltaSnapshot F)
      → FitsDelta fl d
      → peek_snapshot_version (write_snapshot_delta fl d []) ≡ delta_version
  unfolding peek_snapshot_version peek_magic
  peek_delta d h =
      ap peek_snapshot_version
        (sym (append-nil (write_snapshot_delta fl d [])) ∙ write_snapshot_delta_lem fl d h)
      ∙ ground arith

  decode_delta_lem :
      (bytes : List ℕ) (delta : DeltaSnapshot F) (d : Decoder F) (base : WorldSnapshot F)
      → read_snapshot_delta fl (open_reader bytes) ≡ some delta
      → find_in_ring d.ring delta.baseline_tick ≡ some base
      → decode_delta fl bytes d ≡ (some (apply_delta base delta), store (apply_delta base delta) d)
  unfolding decode_delta
  decode_delta_lem bytes delta d base r there = rw (r, there, decode_delta)

  -- If the viewer holds the baseline of a delta whose fields fit their widths, decoding the
  -- packet of the delta yields the baseline with the delta applied, at the precision of the wire,
  -- and stores it.
  pub decode-write_snapshot_delta :
      (delta : DeltaSnapshot F) (d : Decoder F) (base : WorldSnapshot F)
      → FitsDelta fl delta
      → find_in_ring d.ring delta.baseline_tick ≡ some base
      → decode fl (write_snapshot_delta fl delta []) d ≡ (
        some (apply_delta base (delta_as_sent fl delta)),
        store (apply_delta base (delta_as_sent fl delta)) d,
      )
  unfolding decode
  decode-write_snapshot_delta delta d base h there = rw (peek_delta delta h) (
      decode_delta_lem (write_snapshot_delta fl delta []) (delta_as_sent fl delta) d base
        (read_snapshot_delta-write_snapshot_delta fl delta h) there)
