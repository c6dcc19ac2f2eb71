-- ===== src/Ecs/Pool.antt =====
-- `Pool` of NeuronCore/ECS.h: components in a dense array, found through a sparse one.
pub mod Map
pub mod Remove
mod Tests
use deepspace_outpost_dx.Base.{
  ltb, leb, ◌==◌, if◌then◌else◌, length, get_elem?, get_or, set, replicate, take, ℕ, ◌+◌, ◌-◌, ◌%◌,
  ◌^◌, Bool, not, ◌&&◌, Option, none, some, List, [], ◌∷◌, ◌++◌,
}

abbrev pub invalid_index : ℕ
invalid_index = 0xFFFFFFFF

pub record Pool {ℓ} (A : Type ℓ) : Type ℓ where
  pub sparse : List ℕ
  pub dense : List ℕ
  pub components : List A

-- `vector::resize` to a larger size, with the value for the new places.
unfoldable pub resize : ℕ → ℕ → List ℕ → List ℕ
resize n v xs = xs ++ replicate (n - length xs) v

-- `pop_back`.
unfoldable pub pop_back {ℓ} : {A : Type ℓ} → List A → List A
pop_back xs = take (length xs - 1) xs

module _ {ℓ} {A : Type ℓ} where
  abbrev pub empty_pool : Pool A
  empty_pool = record { sparse = []; dense = []; components = [] }

  unfoldable pub has : ℕ → Pool A → Bool
  has i p = ltb i (length p.sparse) && not (get_or p.sparse i invalid_index == invalid_index)

  unfoldable pub set_grown : ℕ → A → Pool A → Pool A
  set_grown i v p =
      let slot = get_or p.sparse i invalid_index in
      if not (slot == invalid_index)
      then record p { components = set p.components slot v }
      else record {
        sparse = set p.sparse i (length p.dense % 2 ^ 32);
        dense = p.dense ++ i ∷ [];
        components = p.components ++ v ∷ [];
      }

  unfoldable pub set_component : ℕ → A → Pool A → Pool A
  set_component i v p =
      if leb (length p.sparse) i
      then set_grown i v (record p { sparse = resize (i + 1) invalid_index p.sparse })
      else set_grown i v p

  -- `none` is the null pointer.
  unfoldable pub try_get : ℕ → Pool A → Option A
  try_get i p = if has i p then get_elem? p.components (get_or p.sparse i invalid_index) else none

  -- `components[slot] = components[last]`, where the last one is there.
  abbrev pub copy : ℕ → ℕ → List A → List A
  copy slot last xs = elim (get_elem? xs last) [ none ↦ xs | some v ↦ set xs slot v ]

  unfoldable pub remove : ℕ → Pool A → Pool A
  remove i p =
      let slot = get_or p.sparse i invalid_index in
      let last = (length p.dense + 2 ^ 32 - 1) % 2 ^ 32 in
      let entity = get_or p.dense last invalid_index in
      if not (has i p) then p else record {
        components = pop_back (copy slot last p.components);
        dense = pop_back (set p.dense slot entity);
        sparse = set (set p.sparse entity slot) i invalid_index;
      }

  -- The pairs that `Each` visits, in its order.
  unfoldable pub visit : List ℕ → List A → List (ℕ × A)
  visit [] vs = []
  visit (i ∷ is) [] = []
  visit (i ∷ is) (v ∷ vs) = (i, v) ∷ visit is vs

  unfoldable pub each : Pool A → List (ℕ × A)
  each p = visit p.dense p.components

  unfoldable pub size : Pool A → ℕ
  size p = length p.dense
