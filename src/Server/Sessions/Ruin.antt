-- ===== src/Server/Sessions/Ruin.antt =====
-- What `Reap` leaves of the world.
use deepspace_outpost_dx.Base.{
  ◌==◌, if◌then◌else◌, Bool-cases, eq_cases, lookup-erase, ℕ, ◌≡◌, refl, ap, subst, ◌∙◌, inl, inr,
  Bool, true, false, not, ◌&&◌, ◌||◌, List, [], ◌∷◌, arith,
}
use deepspace_outpost_dx.Ecs.Registry.{EntityId, same_id, Registry, is_valid}
use deepspace_outpost_dx.Ecs.Registry.Handles
use deepspace_outpost_dx.Ecs.Ownership.Laws.{owns, same_id_sym}
use deepspace_outpost_dx.Ecs.Ownership
use deepspace_outpost_dx.Ecs.Ownership.{Index, holds, owned, forget}
use deepspace_outpost_dx.Server.Sessions.{Session, Sessions}
use deepspace_outpost_dx.Server.Sessions.Reap.{
  destroy_one, destroy_each, is_idle, expire, reap_each, reap,
}
use deepspace_outpost_dx.Server.Sessions.Sweep.{reap_each_idle, reap_each_busy}

-- An entity is a session's: its own, or one that its player has.
abbrev pub claims : EntityId → Ownership.Index → Session → Bool
claims d own s = same_id d s.entity || (not (s.player_id == 0) && owns s.player_id d own)

-- One of the sessions that are idle claims the entity.
abbrev pub is_doomed : ℕ → ℕ → ℕ → EntityId → Ownership.Index → List (ℕ × Session) → Bool
is_doomed tick shell grace d own [] = false
is_doomed tick shell grace d own ((k, s) ∷ es) =
    (is_idle tick shell grace s && claims d own s) || is_doomed tick shell grace d own es

owned-forget :
    (p q : ℕ) (m : Ownership.Index) → owned q (forget p m) ≡ (if p == q then [] else owned q m)
unfolding owned forget
owned-forget p q m = ground (arith, lookup-erase p q m)

module _ {A : Type 0} where
  valid_same : (d e : EntityId) (w : Registry A) → same_id d e ≡ true → is_valid d w ≡ is_valid e w
  unfolding is_valid same_id
  valid_same d e w h = ground arith

  destroy_one_valid :
      (d e : EntityId) (r : List ℕ × Registry A)
      → Handles.IsSound r.1
      → (is_valid d (destroy_one e r).1 ≡ (is_valid d r.1 && not (same_id d e)))
        × Handles.IsSound (destroy_one e r).1
  unfolding destroy_one
  destroy_one_valid d e r s = elim (Bool-cases (is_valid e r.1)) [
    | inl good ↦
        rw (good, destroy_one) (Handles.is_valid-destroy d e r.1 s, Handles.destroy-IsSound e r.1 s)
    | inr bad ↦ rw (bad, destroy_one) (ground (arith, bad, valid_same d e r.1), s)
  ]

  destroy_each_valid :
      (d : EntityId) (es : List EntityId) (r : List ℕ × Registry A)
      → Handles.IsSound r.1
      → (is_valid d (destroy_each es r).1 ≡ (is_valid d r.1 && not (holds d es)))
        × Handles.IsSound (destroy_each es r).1
  unfolding destroy_each holds
  destroy_each_valid d [] r s = (ground arith, s)
  destroy_each_valid d (e ∷ es) r s =
      let (one, sound) = destroy_one_valid d e r s in
      let (each, sound') = destroy_each_valid d es (destroy_one e r) sound in
      (ground (arith, one, each, same_id_sym d e), sound')

  expire_valid :
      (d : EntityId) (k : ℕ) (s : Session) (r : List ℕ × Registry A × Sessions)
      → Handles.IsSound r.1
      → (is_valid d (expire k s r).1 ≡ (is_valid d r.1 && not (claims d r.2.ownership s)))
        × Handles.IsSound (expire k s r).1
  unfolding expire
  expire_valid d k s r sound = elim (Bool-cases (s.player_id == 0)) [
    | inl nobody ↦
        let (last, kept) = destroy_one_valid d s.entity (r.0, r.1) sound in
        rw (nobody, expire) (unfold destroy_each in (ground (arith, last), kept))
    | inr player ↦
        let (each, sound') =
          destroy_each_valid d (owned s.player_id r.2.ownership) (r.0, r.1) sound in
        let (last, kept) =
          destroy_one_valid d s.entity (destroy_each (owned s.player_id r.2.ownership) (r.0, r.1))
            sound' in
        rw (player, expire) (ground (arith, last, each), kept)
  ]

  owns-expire :
      (d : EntityId) (p k : ℕ) (s : Session) (r : List ℕ × Registry A × Sessions)
      → owns p d (expire k s r).2.ownership
        ≡ (owns p d r.2.ownership && (s.player_id == 0 || not (s.player_id == p)))
  unfolding expire
  owns-expire d p k s r = elim (Bool-cases (s.player_id == 0)) [
    | inl nobody ↦ rw (nobody, expire) (ground arith)
    | inr player ↦
        rw (player, expire)
          (rw (owned-forget s.player_id p r.2.ownership) (unfold holds in ground arith))
  ]

  -- Among the entities that are good, an index with owners forgotten still tells what a whole one does.
  abbrev Tells : EntityId → Registry A → Ownership.Index → Ownership.Index → Type 0
  Tells d w own now = (p : ℕ) → (is_valid d w && owns p d now) ≡ (is_valid d w && owns p d own)

  reap_each_valid :
      (tick shell grace : ℕ) (d : EntityId) (own : Ownership.Index) (es : List (ℕ × Session))
      (r : List ℕ × Registry A × Sessions)
      → Handles.IsSound r.1
      → Tells d r.1 own r.2.ownership
      → is_valid d (reap_each tick shell grace es r).1
        ≡ (is_valid d r.1 && not (is_doomed tick shell grace d own es))
  reap_each_valid tick shell grace d own [] r sound tells = unfold reap_each in ground arith
  reap_each_valid tick shell grace d own ((k, s) ∷ es) r sound tells =
      elim (Bool-cases (is_idle tick shell grace s)) [
        | inl idle ↦
            let (here, sound') = expire_valid d k s r sound in
            let t = tells s.player_id in
            let tells' : Tells d (expire k s r).1 own (expire k s r).2.ownership = (λ p.
              elim (eq_cases s.player_id p) [
                | inl same ↦
                    subst
                      (λ (q : ℕ).
                        (is_valid d (expire k s r).1 && owns q d (expire k s r).2.ownership)
                        ≡ (is_valid d (expire k s r).1 && owns q d own))
                      same (ground (arith, owns-expire d s.player_id k s r, t, here))
                | inr other ↦ ground (arith, owns-expire d p k s r, tells p, here)
              ]) in
            ap (λ (x : List ℕ × Registry A × Sessions). is_valid d x.1)
              (reap_each_idle tick shell grace k s es r idle)
            ∙ ground (
              arith,
              idle,
              here,
              t,
              reap_each_valid tick shell grace d own es (expire k s r) sound' tells',
            )
        | inr busy ↦
            ap (λ (x : List ℕ × Registry A × Sessions). is_valid d x.1)
              (reap_each_busy tick shell grace k s es r busy)
            ∙ ground (arith, busy, reap_each_valid tick shell grace d own es r sound tells)
      ]

  -- In a sound world, a reap destroys every entity that an idle session claims, as its own or as
  -- one of its player's, and no other: the handles that were good and that no idle session claims
  -- stay good, and there are no new ones.
  pub is_valid-reap :
      (tick shell grace : ℕ) (d : EntityId) (world : Registry A) (st : Sessions)
      → Handles.IsSound world
      → is_valid d (reap tick shell grace world st).1
        ≡ (is_valid d world && not (is_doomed tick shell grace d st.ownership st.table.sessions))
  unfolding reap
  is_valid-reap tick shell grace d world st sound =
      reap_each_valid tick shell grace d st.ownership st.table.sessions ([], world, st) sound
        (λ p. refl)
