-- ===== src/Ecs/Pool/Tests.antt =====
-- A pool with two components.
use deepspace_outpost_dx.Base.{length, ℕ, ◌+◌, ◌<◌, ◌≡◌, refl, some, arith}
use deepspace_outpost_dx.Ecs.Pool.{
  invalid_index, Pool, resize, pop_back, empty_pool, has, set_grown, set_component, try_get, remove,
}
use deepspace_outpost_dx.Ecs.Pool.Map.{IsValid, set_component-Sets}

abbrev no_components : Pool ℕ
no_components = empty_pool

no_components-IsValid : IsValid no_components
no_components-IsValid = record {
  paired = refl;
  small = omega arith;
  forward = λ i h. absurd (h refl);
  backward = λ s i e. cc;
}

abbrev one_component : Pool ℕ
one_component = set_component 4 40 no_components

one_component_dense : length one_component.dense + 1 < invalid_index
unfolding set_component set_grown resize
one_component_dense = omega arith

abbrev two_components : Pool ℕ
two_components = set_component 1 10 one_component

two_components-IsValid : IsValid two_components
two_components-IsValid =
    (set_component-Sets 1 10 one_component
      (set_component-Sets 4 40 no_components no_components-IsValid (omega arith)).0
      one_component_dense).0

try_get_kept : try_get 1 (remove 4 two_components) ≡ some 10
unfolding try_get remove set_component set_grown has resize pop_back
try_get_kept = refl
