-- ===== src/Persist/WriteBehind.antt =====
-- The service writes behind the game's back; what it comes to is as if each snapshot were written at once.
use deepspace_outpost_dx.Base.{
  if◌then◌else◌, Bool-cases, All, ℕ, ◌≡◌, refl, sym, ap, subst, ◌∙◌, ◌⊎◌, inl, inr, true, false,
  Option, none, some, List, [], ◌∷◌,
}
use deepspace_outpost_dx.Persist.Rows.{CommandLogEntry, MarketRow, PlayerPersistState}
use deepspace_outpost_dx.Persist.Store.{
  same_name, find_name, put_name, Store, upsert_player, load_player, append_commands,
  upsert_market_rows,
}
use deepspace_outpost_dx.Persist.Names.{same_name-eq, find_name-put_name, IsNamed, IsNamed-put_name}
use deepspace_outpost_dx.Persist.Service.{
  Service, queue_player_snapshot, queue_command, queue_market_rows, request_load, drain_loads,
  upsert_players, flush_pending_once,
}

-- What the game and the writer thread do, in any order.
pub data Action : Type 0 where
  snapshot : PlayerPersistState → Action
  log_command : CommandLogEntry → Action
  market_rows : List MarketRow → Action
  ask_load : List ℕ → Action
  drain_done flush_queue : Action

unfoldable pub act : Action → Service → Service
act (snapshot p) s = queue_player_snapshot p s
act (log_command e) s = queue_command e s
act (market_rows rows) s = queue_market_rows rows s
act (ask_load name) s = request_load name s
act drain_done s = (drain_loads s).1
act flush_queue s = (flush_pending_once s).1

unfoldable pub act_all : List Action → Service → Service
act_all [] s = s
act_all (a ∷ more) s = act_all more (act a s)

-- The specification: a table of commanders, which a snapshot writes at once and nothing else changes.
abbrev pub Table : Type 0
Table = List ℕ → Option PlayerPersistState

unfoldable pub act_at_once : Action → Table → Table
act_at_once (snapshot p) t name = if same_name p.commander_name name then some p else t name
act_at_once _ t name = t name

unfoldable pub all_at_once : List Action → Table → Table
all_at_once [] t = t
all_at_once (a ∷ more) t = all_at_once more (act_at_once a t)

abbrev or_else : {V : Type 0} → Option V → Option V → Option V
or_else none w = w
or_else (some v) w = some v

-- The table that a service stands for: what is queued, and what is stored where nothing is.
unfoldable pub table_of : Service → Table
table_of s name = or_else (find_name name s.pending_players) (load_player name s.store)

-- The entries of the queue are under the names of their commanders.
abbrev Filed : List ℕ × PlayerPersistState → Type 0
Filed e = e.0 ≡ e.1.commander_name

pub record IsQueued (s : Service) : Type 0 where
  pub named : IsNamed s.pending_players
  pub filed : All Filed s.pending_players

All-put_name :
    (p : PlayerPersistState) (d : List (List ℕ × PlayerPersistState))
    → All Filed d
    → All Filed (put_name p.commander_name p d)
unfolding put_name
All-put_name p [] h = (refl, tt)
All-put_name p ((i, w) ∷ d) h = elim (Bool-cases (same_name i p.commander_name)) [
  | inl same ↦ rw same (same_name-eq i p.commander_name same, h.1)
  | inr other ↦ rw other (h.0, All-put_name p d h.1)
]

load-upsert_players :
    (name : List ℕ) (ps : List (List ℕ × PlayerPersistState)) (st : Store)
    → IsNamed ps
    → All Filed ps
    → load_player name (upsert_players ps st) ≡ or_else (find_name name ps) (load_player name st)
unfolding upsert_players IsNamed find_name
load-upsert_players name [] st u f = refl
load-upsert_players name ((k, p) ∷ ps) st u f =
    load-upsert_players name ps (upsert_player p st) u.1 f.1
    ∙ stepped (Bool-cases (same_name k name))
  where
    apart : same_name k name ≡ true → find_name name ps ≡ none
    apart h = subst (λ (n : List ℕ). find_name n ps ≡ none) (same_name-eq k name h) u.0

    written :
        load_player name (upsert_player p st)
        ≡ (if same_name k name then some p else load_player name st)
    written =
        unfold load_player upsert_player in
        (find_name-put_name p.commander_name name p st.players
          ∙ ap (λ (n : List ℕ). if same_name n name then some p else find_name name st.players)
              (sym f.0))

    stepped :
        (same_name k name ≡ true) ⊎ (same_name k name ≡ false)
        → or_else (find_name name ps) (load_player name (upsert_player p st))
          ≡ or_else (if same_name k name then some p else find_name name ps) (load_player name st)
    stepped (inl same) = rw (apart same, same) (written ∙ rw same refl)
    stepped (inr other) = rw other (ap (or_else (find_name name ps)) (written ∙ rw other refl))

flush_table :
    (s : Service) (name : List ℕ)
    → IsQueued s
    → load_player name (flush_pending_once s).1.store ≡ table_of s name
unfolding flush_pending_once table_of append_commands upsert_market_rows load_player
flush_table s name q =
    unfold load_player in load-upsert_players name s.pending_players s.store q.named q.filed

act-IsQueued : (a : Action) (s : Service) → IsQueued s → IsQueued (act a s)
unfolding act queue_player_snapshot queue_command queue_market_rows request_load drain_loads
    flush_pending_once
act-IsQueued (snapshot p) s q = record {
  named = IsNamed-put_name p.commander_name p s.pending_players q.named;
  filed = All-put_name p s.pending_players q.filed;
}
act-IsQueued (log_command e) s q = record { named = q.named; filed = q.filed }
act-IsQueued (market_rows rows) s q = record { named = q.named; filed = q.filed }
act-IsQueued (ask_load name) s q = record { named = q.named; filed = q.filed }
act-IsQueued drain_done s q = record { named = q.named; filed = q.filed }
act-IsQueued flush_queue s q = record { named = unfold IsNamed in tt; filed = tt }

act_refines :
    (a : Action) (s : Service) (name : List ℕ)
    → IsQueued s
    → table_of (act a s) name ≡ act_at_once a (table_of s) name
unfolding act act_at_once table_of flush_pending_once load_player find_name
act_refines (snapshot p) s name q =
    unfold queue_player_snapshot in go (Bool-cases (same_name p.commander_name name))
  where
    put :
        find_name name (put_name p.commander_name p s.pending_players)
        ≡ (if same_name p.commander_name name then some p else find_name name s.pending_players)
    put = find_name-put_name p.commander_name name p s.pending_players

    go :
        (same_name p.commander_name name ≡ true) ⊎ (same_name p.commander_name name ≡ false)
        → or_else
            (find_name name (put_name p.commander_name p s.pending_players))
            (load_player name s.store)
          ≡ (if same_name p.commander_name name
              then some p
              else or_else (find_name name s.pending_players) (load_player name s.store))
    go (inl same) = rw (put, same) refl
    go (inr other) = rw (put, other) refl
act_refines (log_command e) s name q = unfold queue_command in refl
act_refines (market_rows rows) s name q = unfold queue_market_rows in refl
act_refines (ask_load n) s name q = unfold request_load in refl
act_refines drain_done s name q = unfold drain_loads in refl
act_refines flush_queue s name q = unfold find_name in flush_table s name q

act_at_once_same :
    (a : Action) (t u : Table) (name : List ℕ)
    → t name ≡ u name
    → act_at_once a t name ≡ act_at_once a u name
unfolding act_at_once
act_at_once_same (snapshot p) t u name h =
    ap (λ o. if same_name p.commander_name name then some p else o) h
act_at_once_same (log_command e) t u name h = h
act_at_once_same (market_rows rows) t u name h = h
act_at_once_same (ask_load n) t u name h = h
act_at_once_same drain_done t u name h = h
act_at_once_same flush_queue t u name h = h

all_at_once_same :
    (more : List Action) (t u : Table) (name : List ℕ)
    → ((n : List ℕ) → t n ≡ u n)
    → all_at_once more t name ≡ all_at_once more u name
unfolding all_at_once
all_at_once_same [] t u name h = h name
all_at_once_same (a ∷ more) t u name h =
    all_at_once_same more (act_at_once a t) (act_at_once a u) name
      (λ n. act_at_once_same a t u n (h n))

-- From a service whose queue is in order, after any actions of the game and the writer thread, in any
-- order, the service stands for the table of commanders that the snapshots alone, each written at
-- once, make of the table that it stood for.
pub act_all-refines :
    (actions : List Action) (s : Service) (name : List ℕ)
    → IsQueued s
    → table_of (act_all actions s) name ≡ all_at_once actions (table_of s) name
unfolding act_all all_at_once
act_all-refines [] s name q = refl
act_all-refines (a ∷ more) s name q =
    act_all-refines more (act a s) name (act-IsQueued a s q)
    ∙ all_at_once_same more (table_of (act a s)) (act_at_once a (table_of s)) name
        (λ n. act_refines a s n q)

act_all-IsQueued : (actions : List Action) (s : Service) → IsQueued s → IsQueued (act_all actions s)
unfolding act_all
act_all-IsQueued [] s q = q
act_all-IsQueued (a ∷ more) s q = act_all-IsQueued more (act a s) (act-IsQueued a s q)

-- After any actions and a last pass of the writer thread, the store itself gives for every name
-- what the snapshots, each written at once, would have left there.
pub flush-refines :
    (actions : List Action) (s : Service) (name : List ℕ)
    → IsQueued s
    → load_player name (flush_pending_once (act_all actions s)).1.store
      ≡ all_at_once actions (table_of s) name
flush-refines actions s name q =
    flush_table (act_all actions s) name (act_all-IsQueued actions s q)
    ∙ act_all-refines actions s name q
