-- ===== src/Ecs/Registry/Handles.antt =====
-- Handles: which are good after `Create` and `Destroy`.
use deepspace_outpost_dx.Base.{
  Bool-cases, length, get_or, set, length-append, length-set, get_or-set, get_or-push, ℕ, ◌+◌, ◌%◌,
  ◌^◌, ◌<◌, ◌≡◌, refl, sym, subst, ◌∙◌, inl, inr, true, false, not, ◌&&◌, ◌||◌, List, [], ◌∷◌, ◌++◌,
  arith,
}
use deepspace_outpost_dx.Ecs.Pool.{invalid_index}
use deepspace_outpost_dx.Ecs.Registry.FreeList.{
  FreeSlots, FreeSlots-set-false, FreeSlots-set-true, live_not_free,
}
use deepspace_outpost_dx.Ecs.Registry.{
  EntityId, same_id, Registry, occupy, create, is_valid, destroy,
}

pub record IsSound {A : Type 0} (r : Registry A) : Type 0 where
  pub paired : length r.alive ≡ length r.generations
  pub small : length r.generations < invalid_index
  pub free_slots : FreeSlots r.alive r.free

module _ {A : Type 0} where
  -- In a sound registry, destroying an entity through its handle makes this handle bad and leaves
  -- every other handle as it was; through a bad handle it changes no handle.
  pub is_valid-destroy :
      (d e : EntityId) (r : Registry A)
      → IsSound r
      → is_valid d (destroy e r) ≡ (is_valid d r && not (same_id d e))
  unfolding is_valid destroy same_id
  is_valid-destroy d e r s = ground (
    arith,
    get_or-set r.generations e.index d.index ((get_or r.generations e.index 0 + 1) % 2 ^ 32) 0,
    get_or-set r.alive e.index d.index false false,
    length-set r.generations e.index ((get_or r.generations e.index 0 + 1) % 2 ^ 32),
    s.paired,
  )

  pub destroy-IsSound : (e : EntityId) (r : Registry A) → IsSound r → IsSound (destroy e r)
  unfolding destroy
  destroy-IsSound e r s = elim (Bool-cases (is_valid e r)) [
    | inr dead ↦ rw (dead, destroy) s
    | inl live ↦
        let at : (e.index < length r.generations) × (get_or r.alive e.index false ≡ true) =
          unfold is_valid in ground arith in
        rw (live, destroy)
          (record {
            paired =
                length-set r.alive e.index false
                ∙ s.paired
                ∙ sym (length-set r.generations e.index _);
            small = omega (
              arith,
              length-set r.generations e.index ((get_or r.generations e.index 0 + 1) % 2 ^ 32),
              s.small,
            );
            free_slots = (
              omega (arith, length-set r.alive e.index false, s.paired),
              ground (arith, get_or-set r.alive e.index e.index false false, s.paired),
              live_not_free e.index r.alive r.free at.1 s.free_slots,
              FreeSlots-set-false e.index r.alive r.free s.free_slots,
            );
          })
  ]

  pub create_free :
      (r : Registry A) (i : ℕ) (is : List ℕ)
      → r.free ≡ i ∷ is
      → create r ≡ occupy i (record r { free = is })
  unfolding create
  create_free r i is e = ground (arith, e)

  abbrev pub extended : Registry A → Registry A
  extended r = record r { generations = r.generations ++ 0 ∷ []; alive = r.alive ++ false ∷ [] }

  pub create_new :
      (r : Registry A)
      → IsSound r
      → r.free ≡ []
      → create r ≡ occupy (length r.generations) (extended r)
  unfolding create
  create_new r s e =
      let small = s.small in
      let wrap : length r.generations % 2 ^ 32 ≡ length r.generations = omega arith in
      ground (arith, e, wrap)

  -- What `create` promises of its handle and of the others.
  pub record Creates (r : Registry A) (e : EntityId) (r' : Registry A) : Type 0 where
    pub sound : IsSound r'
    pub was_bad : is_valid e r ≡ false
    pub now_good : is_valid e r' ≡ true
    pub others : (d : EntityId) → is_valid d r' ≡ (is_valid d r || same_id d e)

  pub occupy-Creates :
      (r : Registry A) (i : ℕ) (is : List ℕ)
      → IsSound r
      → r.free ≡ i ∷ is
      → Creates r (occupy i (record r { free = is })).0 (occupy i (record r { free = is })).1
  occupy-Creates r i is s e =
      let f : FreeSlots r.alive (i ∷ is) = subst (FreeSlots r.alive) e s.free_slots in
      record {
        sound = record {
          paired = length-set r.alive i true ∙ s.paired;
          small = s.small;
          free_slots = FreeSlots-set-true i r.alive is f.2 f.3;
        };
        was_bad = unfold is_valid in ground (arith, f.1);
        now_good =
            unfold is_valid in ground (arith, f.0, s.paired, get_or-set r.alive i i true false);
        others = λ d.
            unfold is_valid same_id in
            ground (arith, f.0, f.1, s.paired, get_or-set r.alive i d.index true false);
      }

  extended-Creates :
      (r : Registry A)
      → IsSound r
      → r.free ≡ []
      → length r.generations + 1 < invalid_index
      → Creates r
          (occupy (length r.generations) (extended r)).0
          (occupy (length r.generations) (extended r)).1
  extended-Creates r s e room =
      let n : ℕ = length r.generations in
      record {
        sound = record {
          paired = omega (
            arith,
            length-set (r.alive ++ false ∷ []) n true,
            length-append r.alive (false ∷ []),
            length-append r.generations (0 ∷ []),
            s.paired,
          );
          small = omega (arith, length-append r.generations (0 ∷ []));
          free_slots = subst (FreeSlots (set (r.alive ++ false ∷ []) n true)) (sym e) tt;
        };
        was_bad = unfold is_valid in ground arith;
        now_good =
            unfold is_valid in
            ground (
              arith,
              length-append r.generations (0 ∷ []),
              length-append r.alive (false ∷ []),
              s.paired,
              get_or-set (r.alive ++ false ∷ []) n n true false,
            );
        others = λ d.
            unfold is_valid same_id in
            ground (
              arith,
              length-append r.generations (0 ∷ []),
              length-append r.alive (false ∷ []),
              s.paired,
              get_or-set (r.alive ++ false ∷ []) n d.index true false,
              get_or-push r.alive false d.index false,
              get_or-push r.generations 0 d.index 0,
              get_or-push r.generations 0 n 0,
            );
      }

  -- In a sound registry with room for one more slot, Create gives a handle that was bad and is
  -- good now, leaves every other handle as it was, and keeps the registry sound.
  pub create-Creates :
      (r : Registry A)
      → IsSound r
      → length r.generations + 1 < invalid_index
      → Creates r (create r).0 (create r).1
  create-Creates r s room = go r.free refl
    where
      go : (l : List ℕ) → r.free ≡ l → Creates r (create r).0 (create r).1
      go [] e = rw (create_new r s e) (extended-Creates r s e room)
      go (i ∷ is) e = rw (create_free r i is e) (occupy-Creates r i is s e)
