-- ===== src/Server/Sessions/Rebind.antt =====
-- A client that is known: from a new address, and after its handshake.
use deepspace_outpost_dx.Base.{
  leb, ==_refl, ne→==, lookup, erase, lookup-insert, lookup-erase, ℕ, ◌+◌, ◌%◌, ◌^◌, ◌<◌, ◌≡◌, refl,
  sym, ap, subst, ◌∙◌, ◌≢◌, true, false, Option, none, some, List, [], ◌∷◌, arith,
}
use deepspace_outpost_dx.Ecs.Registry.{EntityId, Registry, create, is_valid, add}
use deepspace_outpost_dx.Server.{NetEndpoint, endpoint_key}
use deepspace_outpost_dx.Server.Table.{grant, rehome, resolve_at, resolve}
use deepspace_outpost_dx.Server.Table.Laws.{held, held-some}
use deepspace_outpost_dx.Server.Sessions.{
  max_inputs_per_tick, Session, Sessions, seen, moved, authenticate, at_key, write_session,
  InputCommand, open_tick, input_at, on_input,
}
use deepspace_outpost_dx.Server.Sessions.Hello.{
  tell, ack_of, next_token, Ship, add_all, spawn_player, accept,
}
use deepspace_outpost_dx.Server.Sessions.Good.{token_of, IsGood}
use deepspace_outpost_dx.Server.Sessions.Spawn.{IsFresh, next_token_same, HasRoom, accept-IsGood}
use deepspace_outpost_dx.Server.Sessions.Budget.{spent, spent-open_tick, input_room}
use deepspace_outpost_dx.Server.Sessions.Front.{at_key-write}
use deepspace_outpost_dx.Server.Sessions.Name.{spawn_name}
use deepspace_outpost_dx.Messages.Defs.Player.{hello_ack}
use deepspace_outpost_dx.Server.Sessions.Safety.{at_key-some}
use deepspace_outpost_dx.Ecs.Registry.Handles
use deepspace_outpost_dx.Ecs.Registry

-- In good order, a session with a token that is heard from an endpoint which no session has is
-- found, moves to that endpoint whole, is seen at the tick, and is no longer where it was.
pub authenticate_moves :
    (ep : NetEndpoint) (tick k : ℕ) (s : Session) (st : Sessions)
    → IsGood st
    → lookup k st.table.sessions ≡ some s
    → s.token ≢ 0
    → lookup (endpoint_key ep) st.table.sessions ≡ none
    → ((authenticate ep s.token tick st).0 ≡ some (endpoint_key ep))
      × (lookup (endpoint_key ep) (authenticate ep s.token tick st).1.table.sessions
          ≡ some (moved ep tick s))
      × (lookup k (authenticate ep s.token tick st).1.table.sessions ≡ none)
unfolding authenticate resolve resolve_at rehome
authenticate_moves ep tick k s st g here real free =
    let own = held-some token_of k st.table.sessions s here in
    let at : lookup s.token st.table.by_token ≡ some k =
      subst (λ (n : ℕ). lookup n st.table.by_token ≡ some k) own
        (g.sound.back k (λ e. real (sym own ∙ e))) in
    let away : k ≢ endpoint_key ep =
      (λ e. ground (arith, here, free, ap (λ (i : ℕ). lookup i st.table.sessions) e)) in
    rw (ne→== _ _ real, at, ne→== _ _ away, free, here)
      (
        refl,
        lookup-insert (endpoint_key ep) (endpoint_key ep) (moved ep tick s)
              (erase k st.table.sessions)
            ∙ rw (==_refl (endpoint_key ep)) refl,
        lookup-insert (endpoint_key ep) k (moved ep tick s) (erase k st.table.sessions)
            ∙ ground (arith, away, lookup-erase k k st.table.sessions),
      )

-- A session that is heard under its token where it stands is found and seen there.
authenticate_stays :
    (ep : NetEndpoint) (tick : ℕ) (s : Session) (st : Sessions)
    → IsGood st
    → lookup (endpoint_key ep) st.table.sessions ≡ some s
    → s.token ≢ 0
    → authenticate ep s.token tick st
      ≡ (some (endpoint_key ep), write_session (endpoint_key ep) (seen tick s) st)
unfolding authenticate resolve resolve_at
authenticate_stays ep tick s st g here real =
    let own = held-some token_of (endpoint_key ep) st.table.sessions s here in
    let at : lookup s.token st.table.by_token ≡ some (endpoint_key ep) =
      subst (λ (n : ℕ). lookup n st.table.by_token ≡ some (endpoint_key ep)) own
        (g.sound.back (endpoint_key ep) (λ e. real (sym own ∙ e))) in
    rw (ne→== _ _ real, at, ==_refl (endpoint_key ep), here) refl

-- An input under the token of a session, from where it stands, is its entity's, if this is in the
-- world and the session has not used up its inputs of the tick.
on_input_known :
    {A : Type 0} (world : Registry A) (ep : NetEndpoint) (input : InputCommand) (tick : ℕ)
    (s : Session) (st : Sessions)
    → IsGood st
    → lookup (endpoint_key ep) st.table.sessions ≡ some s
    → s.token ≢ 0
    → is_valid s.entity world ≡ true
    → spent tick s < max_inputs_per_tick
    → (on_input world ep s.token input tick st).0 ≡ s.entity
unfolding on_input
on_input_known world ep input tick s st g here real valid room =
    let k = endpoint_key ep in
    let seen_st : Sessions = write_session k (seen tick s) st in
    let found = at_key-write k (seen tick s) st in
    let there : is_valid (at_key k seen_st).entity world ≡ true =
      ap (λ (t : Session). is_valid t.entity world) found ∙ valid in
    let free : leb max_inputs_per_tick (open_tick tick (at_key k seen_st)).inputs_this_window
        ≡ false =
      ap (λ (t : Session). leb max_inputs_per_tick (open_tick tick t).inputs_this_window) found
      ∙ ground (arith, (spent-open_tick tick (seen tick s)).0, room) in
    let heard = authenticate_stays ep tick s st g here real in
    rw (ap (λ (r : Option ℕ × Sessions). r.0) heard, on_input)
      (ap (λ (r : Option ℕ × Sessions). (input_at world k input tick r.1).0) heard
        ∙ ap (λ (r : EntityId × Sessions). r.0) (input_room world k tick input seen_st there free)
        ∙ ap (λ (t : Session). t.entity) found)

module _ {A : Type 0} (ship : Ship A) where
  is_valid-add_all :
      (d e : EntityId) (vs : List (ℕ × A)) (world : Registry A)
      → is_valid d (add_all ship e vs world) ≡ is_valid d world
  unfolding add_all
  is_valid-add_all d e [] world = refl
  is_valid-add_all d e ((t, v) ∷ vs) world =
      is_valid-add_all d e vs (Registry.add t e v world) ∙ unfold is_valid Registry.add in refl

  -- The entity that `accept` returns is in the world that it leaves.
  is_valid-accept :
      (k drawn : ℕ) (clean : List ℕ) (s : Session) (st : Sessions) (world : Registry A)
      → HasRoom world
      → let after = accept ship k drawn clean s st world in is_valid after.0 after.2 ≡ true
  unfolding accept spawn_player
  is_valid-accept k drawn clean s st world h =
      is_valid-add_all (create world).0 (create world).0 ship.outfit _
      ∙ unfold is_valid Registry.add in (Handles.create-Creates world h.sound h.room).now_good

  -- The session that `accept` writes.
  accept_row :
      (k drawn : ℕ) (clean : List ℕ) (s : Session) (st : Sessions) (world : Registry A)
      → let after = accept ship k drawn clean s st world in
        (s' : Session) × (lookup k after.1.table.sessions ≡ some s')
        × (s'.token ≡ (next_token drawn st).0)
        × (s'.entity ≡ after.0)
        × (s'.player_id ≡ st.next_player_id)
        × (s'.name ≡ spawn_name clean after.0.index k st.table.sessions)
        × ((tick : ℕ) → spent tick s' ≡ spent tick s)
  unfolding accept spawn_player tell grant
  accept_row k drawn clean s st world =
      let (e, st₁, w) =
        spawn_player ship st.next_player_id
          (record st { next_player_id = (st.next_player_id + 1) % 2 ^ 32 }) world in
      let s' : Session = record s {
        player_id = st.next_player_id;
        entity = e;
        name = spawn_name clean e.index k st.table.sessions;
        token = (next_token drawn st₁).0;
      } in
      (
        tell hello_ack (ack_of s') s',
        lookup-insert k k (tell hello_ack (ack_of s') s') (next_token drawn st₁).1.table.sessions
            ∙ rw (==_refl k) refl,
        next_token_same drawn st st₁ refl,
        refl,
        refl,
        refl,
        λ tick. refl,
      )

  -- When a handshake is accepted, in good order, with a token that is real and not in use, for a
  -- session without a token that does not wait for a commander, and with a sound world that has a
  -- slot to spare: the new entity is in the world, the session has it, with the token, the next
  -- player id and the name chosen for it, and an input with that token from the same endpoint is
  -- taken as this entity's, if the session had not used up its inputs of the tick.
  pub accept_known :
      (ep : NetEndpoint) (drawn : ℕ) (clean : List ℕ) (s : Session) (st : Sessions)
      (world : Registry A) (input : InputCommand) (tick : ℕ)
      → IsGood st
      → IsFresh drawn st
      → held token_of (endpoint_key ep) st.table.sessions ≡ 0
      → s.loading ≡ false
      → HasRoom world
      → spent tick s < max_inputs_per_tick
      → let token = (next_token drawn st).0 in
        let (e, st', world') = accept ship (endpoint_key ep) drawn clean s st world in
        let t = at_key (endpoint_key ep) st' in
        (is_valid e world' ≡ true)
        × (t.entity ≡ e)
        × (t.token ≡ token)
        × (t.player_id ≡ st.next_player_id)
        × (t.name ≡ spawn_name clean e.index (endpoint_key ep) st.table.sessions)
        × ((authenticate ep token tick st').0 ≡ some (endpoint_key ep))
        × ((on_input world' ep token input tick st').0 ≡ e)
  accept_known ep drawn clean s st world input tick g f bare awake h room =
      let after = accept ship (endpoint_key ep) drawn clean s st world in
      let (t, here, own, hull, player, name, left) =
        accept_row (endpoint_key ep) drawn clean s st world in
      let good = accept-IsGood ship (endpoint_key ep) drawn clean s st world g f bare awake h in
      let real : t.token ≢ 0 = (λ e. f.real (sym own ∙ e)) in
      let valid = is_valid-accept (endpoint_key ep) drawn clean s st world h in
      let at : at_key (endpoint_key ep) after.1 ≡ t =
        at_key-some (endpoint_key ep) t after.1 here in
      let heard = authenticate_stays ep tick t after.1 good here real in
      let taken =
        on_input_known after.2 ep input tick t after.1 good here real
          (ap (λ (e : EntityId). is_valid e after.2) hull ∙ valid)
          (subst (λ (n : ℕ). n < max_inputs_per_tick) (sym (left tick)) room) in
      (
        valid,
        ap (λ (x : Session). x.entity) at ∙ hull,
        ap (λ (x : Session). x.token) at ∙ own,
        ap (λ (x : Session). x.player_id) at ∙ player,
        ap (λ (x : Session). x.name) at ∙ name,
        subst (λ (n : ℕ). (authenticate ep n tick after.1).0 ≡ some (endpoint_key ep)) own
            (ap (λ (r : Option ℕ × Sessions). r.0) heard),
        subst (λ (n : ℕ). (on_input after.2 ep n input tick after.1).0 ≡ after.0) own
            (taken ∙ hull),
      )
