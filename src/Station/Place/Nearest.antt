-- ===== src/Station/Place/Nearest.antt =====
-- `NearestStation` finds a nearest one.
use deepspace_outpost_dx.Base.{
  ltb, Bool-cases, ℕ, ◌≤◌, ◌≡◌, refl, sym, subst, ◌⊎◌, inl, inr, true, Option, none, some, List, [],
  ◌∷◌, arith,
}
use deepspace_outpost_dx.Ecs.Registry.{EntityId, no_entity, Registry, each_pair}
use deepspace_outpost_dx.Station.Place.{
  Position, Component, station_id, transform_id, can_dock, manhattan, nearer, entity_or_none,
  consider, position_of, nearest, nearest_station,
}

-- No farther than a distance, and so something.
abbrev pub Within : ℕ → Option (ℕ × EntityId) → Type 0
Within d none = ⊥
Within d (some (b, e)) = b ≤ d

Within-nearer :
    (d c : ℕ) (e : EntityId) (best : Option (ℕ × EntityId))
    → Within d best ⊎ (c ≤ d)
    → Within d (nearer c e best)
Within-nearer d c e none (inl h) = absurd h
Within-nearer d c e none (inr h) = h
Within-nearer d c e (some (b, f)) h = elim (Bool-cases (ltb c b)) [
  | inl less ↦ rw less (ground (arith, less, h))
  | inr more ↦ rw more (ground (arith, more, h))
]

pair_of :
    (c : ℕ) (e : EntityId) (d : ℕ) (f : EntityId)
    → ◌≡◌ {A = Option (ℕ × EntityId)} (some (c, e)) (some (d, f))
    → (c ≡ d) × (e ≡ f)
pair_of c e d f h = (cc, cc)

nearer_one :
    (c : ℕ) (e f : EntityId) (d : ℕ) (best : Option (ℕ × EntityId))
    → nearer c e best ≡ some (d, f)
    → (best ≡ some (d, f)) ⊎ ((c ≡ d) × (e ≡ f))
nearer_one c e f d none h = inr (pair_of c e d f h)
nearer_one c e f d (some (b, g)) h = elim (Bool-cases (ltb c b)) [
  | inl less ↦ inr (pair_of c e d f (ground (arith, h, less)))
  | inr more ↦ inl (ground (arith, h, more))
]

module _ (p : Position) (range : ℕ) where
  Within-consider :
      (d : ℕ) (e : EntityId) (o : Option Position) (best : Option (ℕ × EntityId))
      → Within d best
      → Within d (consider p range e o best)
  unfolding consider
  Within-consider d e none best h = h
  Within-consider d e (some t) best h = elim (Bool-cases (can_dock t p range)) [
    | inl near ↦ rw near (Within-nearer d (manhattan t p) e best (inl h))
    | inr far ↦ rw far h
  ]

  consider_one :
      (d : ℕ) (e f : EntityId) (o : Option Position) (best : Option (ℕ × EntityId))
      → consider p range e o best ≡ some (d, f)
      → (best ≡ some (d, f))
        ⊎ ((place : Position) × (o ≡ some place)
            × (can_dock place p range ≡ true)
            × (manhattan place p ≡ d)
            × (e ≡ f))
  unfolding consider
  consider_one d e f none best h = inl h
  consider_one d e f (some t) best h = elim (Bool-cases (can_dock t p range)) [
    | inr far ↦ inl (ground (arith, far, h))
    | inl near ↦ elim (nearer_one (manhattan t p) e f d best (ground (arith, near, h))) [
      | inl old ↦ inl old
      | inr (at, same) ↦ inr (t, refl, near, at, same)
    ]
  ]

module _ {X : Type 0} (p : Position) (range : ℕ) where
  -- A station is in the list, in range, at a distance.
  pub data IsAt (e : EntityId) (d : ℕ) : List (EntityId × Component X × Component X) → Type 0 where
    here :
        (s t : Component X) (place : Position) (es : List (EntityId × Component X × Component X))
        → position_of (some t) ≡ some place
        → can_dock place p range ≡ true
        → manhattan place p ≡ d
        → IsAt e d ((e, s, t) ∷ es)
    there :
        (x : EntityId × Component X × Component X)
        (es : List (EntityId × Component X × Component X))
        → IsAt e d es
        → IsAt e d (x ∷ es)

  nearest_keeps :
      (d : ℕ) (es : List (EntityId × Component X × Component X)) (best : Option (ℕ × EntityId))
      → Within d best
      → Within d (nearest p range es best)
  unfolding nearest
  nearest_keeps d [] best h = h
  nearest_keeps d ((e, s, t) ∷ es) best h =
      nearest_keeps d es _ (Within-consider p range d e (position_of (some t)) best h)

  nearest_least :
      (e : EntityId) (d : ℕ) (es : List (EntityId × Component X × Component X))
      (best : Option (ℕ × EntityId))
      → IsAt e d es
      → Within d (nearest p range es best)
  unfolding nearest
  nearest_least e d es best (here s t place rest at near far) = nearest_keeps d rest _ (
      rw at (
        unfold consider in
        rw near (Within-nearer d (manhattan place p) e best (inr (ground (arith, far))))))
  nearest_least e d es best (there x rest i) = nearest_least e d rest _ i

  nearest_found :
      (e : EntityId) (d : ℕ) (es : List (EntityId × Component X × Component X))
      (best : Option (ℕ × EntityId))
      → nearest p range es best ≡ some (d, e)
      → (best ≡ some (d, e)) ⊎ IsAt e d es
  unfolding nearest
  nearest_found e d [] best h = inl h
  nearest_found e d ((f, s, t) ∷ es) best h = elim (nearest_found e d es _ h) [
    | inr later ↦ inr (there _ es later)
    | inl now ↦ elim (consider_one p range d f e (position_of (some t)) best now) [
      | inl old ↦ inl old
      | inr (place, at, near, far, same) ↦ inr (
          subst (λ (g : EntityId). IsAt e d ((g, s, t) ∷ es)) (sym same)
            (here s t place es at near far))
    ]
  ]

  nearest-none :
      (es : List (EntityId × Component X × Component X)) (e : EntityId) (d : ℕ)
      → nearest p range es none ≡ none
      → ¬ IsAt e d es
  nearest-none es e d h i = subst (Within d) h (nearest_least e d es none i)

-- What `NearestStation` hands back: a station in range that no station in range is nearer than, or no
-- entity when there is none in range.
pub data Nearest {X : Type 0} (p : Position) (range : ℕ)
    (es : List (EntityId × Component X × Component X)) : EntityId → Type 0 where
  one :
      (e : EntityId) (d : ℕ)
      → IsAt p range e d es
      → ((f : EntityId) (c : ℕ) → IsAt p range f c es → d ≤ c)
      → Nearest p range es e
  nobody : ((f : EntityId) (c : ℕ) → ¬ IsAt p range f c es) → Nearest p range es no_entity

-- Among the stations with a transform, `NearestStation` finds one in range (Chebyshev) that is at
-- most as far (Manhattan) as each of the others in range; it finds none only when none is in range.
pub nearest_station-Nearest :
    {X : Type 0} (world : Registry (Component X)) (p : Position) (range : ℕ)
    → Nearest p range (each_pair station_id transform_id world) (nearest_station world p range)
unfolding nearest_station
nearest_station-Nearest {X = X} world p range = go (nearest p range es none) refl
  where
    es : List (EntityId × Component X × Component X)
    es = each_pair station_id transform_id world

    go :
        (o : Option (ℕ × EntityId))
        → nearest p range es none ≡ o
        → Nearest p range es (entity_or_none o)
    go none h = nobody (λ f c. nearest-none p range es f c h)
    go (some (d, e)) h =
        one e d
          (elim (nearest_found p range e d es none h) [
            | inl old ↦ absurd (ground (arith, old))
            | inr at ↦ at
          ])
          (λ f c i. subst (Within c) h (nearest_least p range f c es none i))
