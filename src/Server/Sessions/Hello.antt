-- ===== src/Server/Sessions/Hello.antt =====
-- The front door: `OnHello`, `SpawnLoaded`, `SpawnPlayer` and `NextToken` of
-- GameLogic/ServerSessions.h.
use deepspace_outpost_dx.Base.{
  ◌==◌, if◌then◌else◌, lookup, ℕ, ◌+◌, ◌*◌, ◌%◌, ◌^◌, Bool, true, false, not, none, some, List, [],
  ◌∷◌,
}
use deepspace_outpost_dx.Base.Int.{ℤ, pos}
use deepspace_outpost_dx.Messages.{Value}
use deepspace_outpost_dx.Messages.Defs.{Message, send}
use deepspace_outpost_dx.Messages.Defs.Player.{hello_ack, hello_reject}
use deepspace_outpost_dx.Ecs.Registry.{EntityId, no_entity, Registry, create, add}
use deepspace_outpost_dx.Ecs.Registry
use deepspace_outpost_dx.Ecs.Ownership
use deepspace_outpost_dx.Server.{NetEndpoint, endpoint_key}
use deepspace_outpost_dx.Server.Table.{grant}
use deepspace_outpost_dx.Server.Sessions.{Session, is_live, Sessions, moved, at_key, write_session}
use deepspace_outpost_dx.Server.Sessions.Name.{sanitize_name, spawn_name, apply_name_to}

abbrev pub protocol_version : ℕ
protocol_version = 4

pub data HelloResult : Type 0 where
  rejected accepted resumed loading_first : HelloResult

pub record HelloOutcome : Type 0 where
  pub result : HelloResult
  pub entity : EntityId
  pub name_changed : Bool

pub record ClientHello : Type 0 where
  pub version : ℕ
  pub commander_name : List ℕ

-- A message to the session's client.
unfoldable pub tell : (m : Message) → Value m.fields → Session → Session
tell m v s = record s { events = send m v s.events }

abbrev pub protocol_mismatch : Value hello_reject.fields
protocol_mismatch = (1, tt)

abbrev pub ack_of : Session → Value hello_ack.fields
ack_of s = (s.token, (s.player_id, (s.entity.index, (protocol_version, tt))))

-- `drawn` is what the token source returns, 0 when none is set.
unfoldable pub next_token : ℕ → Sessions → ℕ × Sessions
next_token drawn st =
    let n = (st.token_counter + 1) % 2 ^ 64 in
    if drawn == 0
    then ((0xA5A5A5A500000000 + n) % 2 ^ 64, record st { token_counter = n })
    else (drawn, st)

abbrev pub refuse : ℕ → Session → Sessions → HelloOutcome × Sessions
refuse k s st = (
  record { result = rejected; entity = no_entity; name_changed = false },
  write_session k (tell hello_reject protocol_mismatch s) st,
)

abbrev pub resume : ℕ → Session → List ℕ → Sessions → HelloOutcome × Sessions
resume k s raw st =
    let (changed, s') = apply_name_to s k raw st.table.sessions in
    (
      record { result = resumed; entity = s.entity; name_changed = changed },
      write_session k (tell hello_ack (ack_of s') s') st,
    )

abbrev pub park : ℕ → Session → List ℕ → Sessions → HelloOutcome × Sessions
park k s raw st = (
  record { result = loading_first; entity = no_entity; name_changed = false },
  write_session k (record s { loading = true; name = sanitize_name raw }) st,
)

-- The components of a player's ship. Most hold floating-point numbers; `outfit` lists the ones after
-- the transform, with the values and in the order in which `SpawnPlayer` adds them.
pub record Ship (A : Type 0) : Type 0 where
  pub owner_type : ℕ
  pub owner : ℕ → A
  pub transform_type : ℕ
  pub transform : ℤ → ℤ → ℤ → A
  pub outfit : List (ℕ × A)

module _ {A : Type 0} (ship : Ship A) where
  unfoldable pub add_all : EntityId → List (ℕ × A) → Registry A → Registry A
  add_all e [] world = world
  add_all e ((t, v) ∷ vs) world = add_all e vs (Registry.add t e v world)

  unfoldable pub spawn_player : ℕ → Sessions → Registry A → EntityId × Sessions × Registry A
  spawn_player player_id st world =
      let (e, w) = create world in
      let offset = st.spawn_count * 2000 in
      let w' = Registry.add ship.owner_type e (ship.owner player_id) w in
      let w'' =
        Registry.add ship.transform_type e (ship.transform (pos offset) (pos 0) (pos 0)) w' in
      (
        e,
        record st {
          spawn_count = (st.spawn_count + 1) % 2 ^ 32;
          ownership = Ownership.add player_id e st.ownership;
        },
        add_all e ship.outfit w'',
      )

  -- The accept path that `OnHello` and `SpawnLoaded` share: `s` is the session and `clean` its
  -- sanitized name. The name is chosen among the sessions as they are before it is written.
  unfoldable pub accept :
      ℕ → ℕ → List ℕ → Session → Sessions → Registry A → EntityId × Sessions × Registry A
  accept k drawn clean s st world =
      let player_id = st.next_player_id in
      let (e, st₁, w) =
        spawn_player player_id (record st { next_player_id = (player_id + 1) % 2 ^ 32 }) world in
      let (token, st₂) = next_token drawn st₁ in
      let s' = record s {
        player_id = player_id;
        entity = e;
        name = spawn_name clean e.index k st.table.sessions;
        token = token;
      } in
      (e, record st₂ { table = grant k token (tell hello_ack (ack_of s') s') st₂.table }, w)

  unfoldable pub on_hello :
      NetEndpoint
      → ClientHello
      → ℕ
      → Bool
      → ℕ
      → Sessions
      → Registry A
      → HelloOutcome × Sessions × Registry A
  on_hello ep hello tick defer_spawn drawn st world =
      let k = endpoint_key ep in
      let s = moved ep tick (at_key k st) in
      let raw = hello.commander_name in
      let here = write_session k s st in
      let (e, st', world') = accept k drawn (sanitize_name raw) s here world in
      if not (hello.version == protocol_version)
      then (let (out, left) = refuse k s st in (out, left, world))
      else if is_live s
      then (let (out, left) = resume k s raw here in (out, left, world))
      else if defer_spawn
      then (let (out, left) = park k s raw st in (out, left, world))
      else (record { result = accepted; entity = e; name_changed = true }, st', world')

  unfoldable pub spawn_loaded :
      NetEndpoint → ℕ → ℕ → Sessions → Registry A → EntityId × Sessions × Registry A
  spawn_loaded ep tick drawn st world =
      let k = endpoint_key ep in
      elim (lookup k st.table.sessions) [
        | none ↦ (no_entity, st, world)
        | some s ↦
            if s.loading
            then accept k drawn s.name (record s { loading = false; last_seen_tick = tick }) st
                world
            else (no_entity, st, world)
      ]
