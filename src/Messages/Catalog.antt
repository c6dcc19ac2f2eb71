-- ===== src/Messages/Catalog.antt =====
-- NeuronCore/Messages/Registry.h: the catalog of messages and the checks on it.
-- A set of ids is the list of the ids that were put into it.
use deepspace_outpost_dx.Base.{
  ltb, ◌==◌, if◌then◌else◌, eq_cases, ℕ, ◌+◌, ◌≤◌, ◌≡◌, refl, sym, ap, ◌∙◌, inl, inr, Bool, true,
  false, not, ◌&&◌, ◌||◌, Option, none, some, List, [], ◌∷◌, arith,
}
use deepspace_outpost_dx.Messages.Defs.{Direction, nowhere, Message, is_wire_scope, is_non_wire_id}
use deepspace_outpost_dx.Messages.Defs.Admin.{
  admin_hello, admin_hello_ack, admin_hello_reject, admin_player_info, admin_player_gone,
  admin_event, admin_health,
}
use deepspace_outpost_dx.Messages.Defs.Core.{
  assign_player, entity_despawn, entity_death, chat, ecm_pulse, escape_pod_used, explosion_at,
  action_triggered, input_command, ping, pong,
}
use deepspace_outpost_dx.Messages.Defs.Player.{
  client_hello, hello_ack, hello_reject, player_info, player_status, cargo_manifest,
}
use deepspace_outpost_dx.Messages.Defs.Station.{station_request, station_response}
use deepspace_outpost_dx.Messages.Defs.World.{
  galaxy_chunk_request, galaxy_chunk, scene_chunk_request, scene_chunk, mining_tick,
  strategic_summary, travel_request, travel_response, unit_order, unit_order_ack, ability_request,
}

-- Every `REGISTER_MESSAGE` of the headers.
abbrev pub catalog : List Message
catalog =
    admin_hello ∷ admin_hello_ack ∷ admin_hello_reject ∷ admin_player_info ∷ admin_player_gone
    ∷ admin_event ∷ admin_health ∷ assign_player ∷ entity_despawn ∷ entity_death ∷ chat ∷ ecm_pulse
    ∷ escape_pod_used ∷ explosion_at ∷ action_triggered ∷ input_command ∷ ping ∷ pong ∷ client_hello
    ∷ hello_ack ∷ hello_reject ∷ player_info ∷ player_status ∷ cargo_manifest ∷ galaxy_chunk_request
    ∷ galaxy_chunk ∷ scene_chunk_request ∷ scene_chunk ∷ mining_tick ∷ strategic_summary
    ∷ travel_request ∷ travel_response ∷ unit_order ∷ unit_order_ack ∷ ability_request
    ∷ station_request ∷ station_response ∷ []

unfoldable pub find_message : ℕ → List Message → Option Message
find_message id [] = none
find_message id (m ∷ ms) = if m.id == id then some m else find_message id ms

unfoldable pub is_among : ℕ → List ℕ → Bool
is_among id [] = false
is_among id (i ∷ is) = i == id || is_among id is

-- The loop of `DuplicateIds`, with the ids that it has seen and reported.
unfoldable pub duplicates_from : List ℕ → List ℕ → List Message → List ℕ
duplicates_from seen reported [] = []
duplicates_from seen reported (m ∷ ms) =
    let again = is_among m.id seen in
    let rest = duplicates_from (m.id ∷ seen) (if again then m.id ∷ reported else reported) ms in
    if again && not (is_among m.id reported) then m.id ∷ rest else rest

unfoldable pub duplicate_ids : List Message → List ℕ
duplicate_ids ms = duplicates_from [] [] ms

abbrev same_bool : Bool → Bool → Bool
same_bool true b = b
same_bool false b = not b

unfoldable pub scope_id_consistent : List Message → Bool
scope_id_consistent [] = true
scope_id_consistent (m ∷ ms) =
    not (same_bool (is_wire_scope m.scope) (is_non_wire_id m.id)) && scope_id_consistent ms

abbrev goes_nowhere : Direction → Bool
goes_nowhere nowhere = true
goes_nowhere _ = false

unfoldable pub wire_have_direction : List Message → Bool
wire_have_direction [] = true
wire_have_direction (m ∷ ms) =
    not (is_wire_scope m.scope && goes_nowhere m.dir) && wire_have_direction ms

-- How often an id stands in a catalog.
abbrev pub uses : ℕ → List Message → ℕ
uses id [] = 0
uses id (m ∷ ms) = (if m.id == id then 1 else 0) + uses id ms

abbrev pub times : ℕ → List ℕ → ℕ
times id [] = 0
times id (i ∷ is) = (if i == id then 1 else 0) + times id is

-- What the loop reports of an id from where it is.
times-duplicates_from :
    (id : ℕ) (seen reported : List ℕ) (ms : List Message)
    → times id (duplicates_from seen reported ms) ≡ (
        if is_among id reported
        then 0
        else if ltb 1 ((if is_among id seen then 1 else 0) + uses id ms)
        then 1
        else 0)
unfolding duplicates_from is_among
times-duplicates_from id seen reported [] = ground arith
times-duplicates_from id seen reported (m ∷ ms) = elim (eq_cases m.id id) [
  | inl same ↦ ground (
    arith,
    same,
    ap (λ (i : ℕ). is_among i seen) same,
    ap (λ (i : ℕ). is_among i reported) same,
    times-duplicates_from id (m.id ∷ seen) (m.id ∷ reported) ms,
    times-duplicates_from id (m.id ∷ seen) reported ms,
  )
  | inr other ↦ ground (
    arith,
    other,
    times-duplicates_from id (m.id ∷ seen) (m.id ∷ reported) ms,
    times-duplicates_from id (m.id ∷ seen) reported ms,
  )
]

-- `DuplicateIds` reports an id once when more than one message of the catalog has it, and not at all
-- otherwise.
pub times-duplicate_ids :
    (id : ℕ) (ms : List Message)
    → times id (duplicate_ids ms) ≡ (if ltb 1 (uses id ms) then 1 else 0)
unfolding duplicate_ids
times-duplicate_ids id ms = times-duplicates_from id [] [] ms ∙ unfold is_among in ground arith

catalog_unique : duplicate_ids catalog ≡ []
unfolding duplicate_ids duplicates_from is_among
catalog_unique = refl

catalog_scopes : scope_id_consistent catalog ≡ true
unfolding scope_id_consistent is_wire_scope is_non_wire_id
catalog_scopes = refl

catalog_directions : wire_have_direction catalog ≡ true
unfolding wire_have_direction is_wire_scope
catalog_directions = refl

at_most_one : (n : ℕ) → ◌≡◌ {A = ℕ} (if ltb 1 n then 1 else 0) 0 → n ≤ 1
at_most_one n h = ground (arith, h)

-- No id stands for two messages of the catalog.
pub catalog_once : (id : ℕ) → uses id catalog ≤ 1
catalog_once id =
    at_most_one (uses id catalog)
      (sym (times-duplicate_ids id catalog) ∙ ap (times id) catalog_unique)
