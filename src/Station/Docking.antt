-- ===== src/Station/Docking.antt =====
-- Docking: who is let in, and where.
use deepspace_outpost_dx.Base.{
  ◌==◌, Bool-cases, ℕ, ◌≡◌, refl, sym, ap, subst, ◌≢◌, ◌⊎◌, inl, inr, false, Option, none, some,
  arith,
}
use deepspace_outpost_dx.Ecs.Registry.{EntityId, no_entity, Registry, try_get, each_pair}
use deepspace_outpost_dx.Ecs.Pool.{invalid_index}
use deepspace_outpost_dx.Station.{StationStatus, ok, cant_dock, docking_refused}
use deepspace_outpost_dx.Station.Place.{
  Position, Component, station_id, transform_id, wanted_id, position_of, nearest_station,
}
use deepspace_outpost_dx.Station.Place.Nearest.{Nearest, nearest_station-Nearest}
use deepspace_outpost_dx.Station.Request.{
  Trader, in_dock, Served, is_fugitive, set_dock, station_near, serve_dock,
}

module _ {X : Type 0} (player : EntityId) (range : ℕ) (world : Registry (Component X)) where
  -- What a docking request comes to.
  pub data Docks : Served X → Type 0 where
    turned_away :
        (status : StationStatus) (credits cargo : ℕ)
        → status ≢ ok
        → Docks (status, credits, cargo, world)
    let_in :
        (credits cargo : ℕ) (p : Position) (station : EntityId)
        → is_fugitive (try_get wanted_id player world) ≡ false
        → position_of (try_get transform_id player world) ≡ some p
        → Nearest p range (each_pair station_id transform_id world) station
        → station.index ≢ invalid_index
        → Docks (ok, credits, cargo, set_dock player (in_dock station.index) world)

  near_station :
      (o : Option Position)
      → position_of (try_get transform_id player world) ≡ o
      → (station_near player range world ≡ no_entity)
        ⊎ ((p : Position) × (position_of (try_get transform_id player world) ≡ some p)
            × (station_near player range world ≡ nearest_station world p range))
  near_station none h = inl (ground (arith, h))
  near_station (some p) h = inr (p, h, ground (arith, h))

  -- A docking request lets in only a player who is no fugitive and has a place, at a nearest
  -- station in range, and records that station; otherwise it is refused and the world is as it
  -- was.
  pub serve_dock-Docks : (t : Trader) (cargo : ℕ) → Docks (serve_dock player range t cargo world)
  unfolding serve_dock
  serve_dock-Docks t cargo = elim (Bool-cases (is_fugitive (try_get wanted_id player world))) [
    | inl wanted ↦ rw (wanted, serve_dock) (turned_away docking_refused t.wallet cargo (λ e. cc))
    | inr clean ↦ elim (Bool-cases ((station_near player range world).index == invalid_index)) [
      | inl far ↦ rw (clean, far, serve_dock) (turned_away cant_dock t.wallet cargo (λ e. cc))
      | inr near ↦ elim (near_station _ refl) [
        | inl missing ↦ absurd (ground (arith, near, ap (λ (e : EntityId). e.index) missing))
        | inr (p, at, found) ↦
            rw (clean, near, serve_dock)
              (let_in t.wallet cargo p (station_near player range world) clean at
                (subst (Nearest p range (each_pair station_id transform_id world)) (sym found)
                  (nearest_station-Nearest world p range))
                (ground (arith, near)))
      ]
    ]
  ]
