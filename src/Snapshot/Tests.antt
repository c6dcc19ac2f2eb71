-- ===== src/Snapshot/Tests.antt =====
-- Snapshots with whole numbers for floats.
use deepspace_outpost_dx.Base.{
  length, ℕ, ◌+◌, ◌*◌, ◌/◌, ◌≡◌, refl, true, false, some, [], ◌∷◌, map, arith,
}
use deepspace_outpost_dx.Base.Int.{ℤ, pos, negsuc, pos_part, ◌-ℤ◌, ltb_ℤ}
use deepspace_outpost_dx.Wire.{open_reader}
use deepspace_outpost_dx.Snapshot.Quantize.{Floats}
use deepspace_outpost_dx.Snapshot.World.{
  EntitySnapshot, Origin, WorldSnapshot, write_snapshot, read_snapshot,
}
use deepspace_outpost_dx.Snapshot.World.RoundTrip.{as_sent, FitsEntity}
use deepspace_outpost_dx.Snapshot.World.Packet.{FitsOrigin, read_snapshot-write_snapshot}
use deepspace_outpost_dx.Snapshot.Delta.{
  DeltaSnapshot, contains, absent, apply_delta, snapshot_diff, write_snapshot_delta,
  read_snapshot_delta,
}
use deepspace_outpost_dx.Snapshot.Delta.Lookup.{find}
use deepspace_outpost_dx.Snapshot.Delta.Apply.{SameAnswer, apply_delta-snapshot_diff}
use deepspace_outpost_dx.Snapshot.Delta.Codec.{FitsDelta, read_snapshot_delta-write_snapshot_delta}
use deepspace_outpost_dx.Snapshot.Packetizer.{
  entities_per_datagram, pieces, parts, packetize_snapshot,
}
use deepspace_outpost_dx.Snapshot.Packetizer.Cover.{
  flatten, read_entities, FitsParts, packetize-covers,
}
use deepspace_outpost_dx.Snapshot.Stream.{find_in_ring, Encoder, Decoder, encode}
use deepspace_outpost_dx.Snapshot.Stream.Steps.{Encodes, encode-Encodes}

abbrev times_int : ℤ → ℤ → ℤ
times_int (pos a) (pos b) = pos (a * b)
times_int (negsuc a) (pos b) = pos 0 -ℤ pos ((a + 1) * b)
times_int (pos a) (negsuc b) = pos 0 -ℤ pos (a * (b + 1))
times_int (negsuc a) (negsuc b) = pos ((a + 1) * (b + 1))

abbrev over_int : ℤ → ℤ → ℤ
over_int (pos a) b = pos (a / pos_part b)
over_int (negsuc a) b = pos 0 -ℤ pos ((a + 1) / pos_part b)

abbrev whole : Floats
whole = record {
  F = ℤ;
  D = ℤ;
  zero = pos 0;
  one = pos 1;
  minus_one = negsuc 0;
  unit_scale = pos 32767;
  speed_scale = pos 256;
  less = ltb_ℤ;
  widen = λ f. f;
  times = times_int;
  lround = λ d. d;
  of_int = λ i. i;
  over = over_int;
}

abbrev fighter : EntitySnapshot ℤ
fighter = record {
  id = 7;
  x = pos 1000;
  y = negsuc 99;
  z = pos 0;
  nose_x = pos 0;
  nose_y = pos 0;
  nose_z = pos 1;
  roof_x = pos 0;
  roof_y = pos 1;
  roof_z = pos 0;
  speed = pos 12;
  type = pos 3;
}

abbrev station : EntitySnapshot ℤ
station = record fighter { id = 8; speed = pos 0; type = negsuc 0 }

abbrev here : Origin
here = record { ref_x = pos 900; ref_y = pos 0; ref_z = negsuc 4 }

abbrev before : WorldSnapshot ℤ
before = record {
  tick = 10;
  viewer = 7;
  origin = here;
  complete = true;
  entities = fighter ∷ station ∷ [];
}

abbrev after : WorldSnapshot ℤ
after = record {
  tick = 11;
  viewer = 7;
  origin = here;
  complete = true;
  entities = record fighter { x = pos 1012 } ∷ [];
}

here_fits : FitsOrigin here
here_fits = ground arith

fighter_fits : FitsEntity whole fighter
fighter_fits = ground arith

station_fits : FitsEntity whole station
station_fits = ground arith

read_snapshot-write_snapshot_example :
    read_snapshot whole (open_reader (write_snapshot whole before []))
    ≡ some
        (record before { entities = as_sent whole here fighter ∷ as_sent whole here station ∷ [] })
read_snapshot-write_snapshot_example = read_snapshot-write_snapshot whole before (record {
  tick = omega arith;
  viewer = omega arith;
  origin = here_fits;
  count = omega arith;
  entities = (fighter_fits, (station_fits, tt));
})

apply_delta-snapshot_diff_example :
    let out = apply_delta before (snapshot_diff whole before after) in
    (out.tick ≡ 11)
    × (out.viewer ≡ 7)
    × (out.origin ≡ here)
    × ((k : ℕ) → SameAnswer whole (find k out.entities) (find k after.entities))
apply_delta-snapshot_diff_example =
    apply_delta-snapshot_diff whole before after (refl, (refl, tt)) (refl, tt)

snapshot_diff_removed : (snapshot_diff whole before after).removed ≡ 8 ∷ []
unfolding snapshot_diff absent contains
snapshot_diff_removed = refl

abbrev moved : DeltaSnapshot ℤ
moved = record {
  tick = 11;
  viewer = 7;
  origin = here;
  baseline_tick = 10;
  changed = fighter ∷ [];
  removed = 8 ∷ [];
}

moved_fits : FitsDelta whole moved
moved_fits = record {
  tick = omega arith;
  viewer = omega arith;
  origin = here_fits;
  baseline = omega arith;
  changed_count = omega arith;
  removed_count = omega arith;
  changed = (fighter_fits, tt);
  removed = (omega arith, tt);
}

read_snapshot_delta-write_snapshot_delta_example :
    read_snapshot_delta whole (open_reader (write_snapshot_delta whole moved []))
    ≡ some (record moved { changed = as_sent whole here fighter ∷ [] })
read_snapshot_delta-write_snapshot_delta_example =
    read_snapshot_delta-write_snapshot_delta whole moved moved_fits

before_fits : FitsParts whole before
before_fits = record {
  tick = omega arith;
  origin = here_fits;
  entities = (fighter_fits, (station_fits, tt));
}

packetize-covers_example :
    flatten (map (read_entities whole) (packetize_snapshot whole before 80))
    ≡ as_sent whole here fighter ∷ as_sent whole here station ∷ []
packetize-covers_example = packetize-covers whole before 80 before_fits (omega arith)

parts-before : length (parts 80 before) ≡ 2
unfolding parts pieces entities_per_datagram
parts-before = refl

abbrev encoder : Encoder ℤ
encoder = record {
  ring = record { tick = 10; snap = before } ∷ [];
  since_keyframe = 3;
  last_was_delta = false;
}

encode-Encodes_example :
    Encodes whole before encoder
      (encode whole before 10 encoder).1
      (encode whole before 10 encoder).0
encode-Encodes_example =
    encode-Encodes whole before 10 encoder before_fits
      (record { bounded = omega arith; in_time = omega arith })

abbrev decoder : Decoder ℤ
decoder = record {
  ring = record { tick = 10; snap = before } ∷ [];
  latest_tick = 10;
  have_latest = true;
}

found_before : find_in_ring decoder.ring 10 ≡ some before
unfolding find_in_ring
found_before = refl
