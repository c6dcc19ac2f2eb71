-- ===== src/Snapshot/Delta/Apply.antt =====
-- SnapshotDiff followed by ApplyDelta.
use deepspace_outpost_dx.Base.{
  if◌then◌else◌, Bool-cases, eq_cases, Option-cases, lookup, ℕ, ◌≡◌, refl, ap, ◌∙◌, ◌⊎◌, inl, inr,
  true, not, ◌&&◌, Option, none, some, List, [], ◌∷◌, ◌++◌, arith,
}
use deepspace_outpost_dx.Snapshot.Quantize.{Floats}
use deepspace_outpost_dx.Snapshot.World.{EntitySnapshot, WorldSnapshot}
use deepspace_outpost_dx.Snapshot.Delta.{
  contains, absent, same_on_wire, ids, index_of, survivors, apply_delta, is_changed, changes,
  snapshot_diff,
}
use deepspace_outpost_dx.Snapshot.Delta.Lookup.{
  find, IsUnique, find-append, contains-ids, find-survivors, lookup-index_of, contains-absent,
}

module _ (fl : Floats) where
  open fl use {F}

  find-id :
      (k : ℕ) (es : List (EntitySnapshot F)) (e : EntitySnapshot F) → find k es ≡ some e → e.id ≡ k
  find-id k [] e h = cc
  find-id k (x ∷ xs) e h = elim (eq_cases x.id k) [
    | inl same ↦ ground (arith, same)
    | inr other ↦ find-id k xs e (ground (arith, other))
  ]

  -- Among the changes an id has its entity of the current tick, if that changed.
  find-changes :
      (base : List (ℕ × EntitySnapshot F)) (k : ℕ) (es : List (EntitySnapshot F))
      → IsUnique es
      → find k (changes fl base es)
        ≡ elim (find k es) [ none ↦ none | some e ↦ if is_changed fl base e then some e else none ]
  unfolding changes
  find-changes base k [] u = refl
  find-changes base k (e ∷ es) u = elim (eq_cases e.id k) [
    | inl same ↦ ground (arith, find-changes base k es u.1, ap (λ (j : ℕ). find j es) same, u.0)
    | inr other ↦ ground (arith, find-changes base k es u.1)
  ]

  -- Two answers for an id that look the same to a viewer.
  abbrev pub SameAnswer : Option (EntitySnapshot F) → Option (EntitySnapshot F) → Type 0
  SameAnswer none none = Unit {0}
  SameAnswer (some a) (some b) = (a ≡ b) ⊎ (same_on_wire fl a b ≡ true)
  SameAnswer _ _ = ⊥

  module _ (bs cs : List (EntitySnapshot F)) (ub : IsUnique bs) (uc : IsUnique cs) (k : ℕ) where
    abbrev index : List (ℕ × EntitySnapshot F)
    index = index_of bs []

    abbrev changed : List (EntitySnapshot F)
    changed = changes fl index cs

    abbrev removed : List ℕ
    removed = absent (ids bs) (ids cs)

    out_find : find k (survivors removed (ids changed) bs ++ changed) ≡ (
        let gone = contains k (ids bs) && not (contains k (ids cs)) in
        let kept = if not gone && not (contains k (ids changed)) then find k bs else none in
        elim kept [ none ↦ find k changed | some e ↦ some e ])
    out_find =
        find-append k (survivors removed (ids changed) bs) changed
        ∙ rw (find-survivors removed (ids changed) k bs, contains-absent k (ids bs) (ids cs))

    is_changed_lem :
        (e : EntitySnapshot F)
        → e.id ≡ k
        → is_changed fl index e
          ≡ elim (find k bs) [ none ↦ true | some b ↦ not (same_on_wire fl b e) ]
    unfolding is_changed lookup
    is_changed_lem e h = elim (Option-cases (find k bs)) [
      | inl new ↦ ground (arith, lookup-index_of e.id bs [] ub, ap (λ (j : ℕ). find j bs) h, new)
      | inr (b, old) ↦
          ground (arith, lookup-index_of e.id bs [] ub, ap (λ (j : ℕ). find j bs) h, old)
    ]

    -- What the client has for the id, by what the server has now and had before.
    when_gone : find k cs ≡ none → find k (survivors removed (ids changed) bs ++ changed) ≡ none
    when_gone now = ground (
      arith,
      out_find,
      contains-ids k bs,
      contains-ids k cs,
      contains-ids k changed,
      find-changes index k cs uc,
      now,
      Option-cases (find k bs),
    )

    when_there :
        (e : EntitySnapshot F)
        → find k cs ≡ some e
        → find k (survivors removed (ids changed) bs ++ changed)
          ≡ (if is_changed fl index e then some e else find k bs)
    when_there e now = elim (Bool-cases (is_changed fl index e)) [
      | inl new ↦ ground (
        arith,
        out_find,
        contains-ids k bs,
        contains-ids k cs,
        contains-ids k changed,
        find-changes index k cs uc,
        now,
        new,
      )
      | inr old ↦ ground (
        arith,
        out_find,
        contains-ids k bs,
        contains-ids k cs,
        contains-ids k changed,
        find-changes index k cs uc,
        now,
        old,
        Option-cases (find k bs),
      )
    ]

    answer : SameAnswer (find k (survivors removed (ids changed) bs ++ changed)) (find k cs)
    answer = elim (Option-cases (find k cs)) [
      | inl none_now ↦ rw (when_gone none_now, none_now) tt
      | inr (e, now) ↦ elim (Option-cases (find k bs)) [
        | inl new ↦
            rw (when_there e now, now, is_changed_lem e (find-id k cs e now), new) (inl refl)
        | inr (b, old) ↦ elim (Bool-cases (same_on_wire fl b e)) [
          | inl same ↦
              rw (when_there e now, now, is_changed_lem e (find-id k cs e now), old, same)
                (inr same)
          | inr other ↦
              rw (when_there e now, now, is_changed_lem e (find-id k cs e now), old, other)
                (inl refl)
        ]
      ]
    ]

  -- If no id stands twice in the baseline or in the current snapshot, a viewer that holds the
  -- baseline and applies the difference has the current tick, viewer and reference point, and for
  -- every id the current entity, or one that equals it on the wire, or none where there is none.
  pub apply_delta-snapshot_diff :
      (baseline current : WorldSnapshot F)
      → IsUnique baseline.entities
      → IsUnique current.entities
      → let out = apply_delta baseline (snapshot_diff fl baseline current) in
        (out.tick ≡ current.tick)
        × (out.viewer ≡ current.viewer)
        × (out.origin ≡ current.origin)
        × ((k : ℕ) → SameAnswer (find k out.entities) (find k current.entities))
  unfolding apply_delta snapshot_diff
  apply_delta-snapshot_diff b c ub uc =
      (refl, refl, refl, λ k. answer b.entities c.entities ub uc k)
