-- ===== src/Persist/Service.antt =====
-- NeuronServer/PersistenceService.cpp: what waits for the writer thread, and one pass of it. Each
-- function holds the lock while it touches the queues, and is one step here.
use deepspace_outpost_dx.Base.{
  ◌==◌, length, drop, ℕ, ◌+◌, ◌-◌, ◌%◌, ◌^◌, Bool, not, ◌||◌, Option, List, [], ◌∷◌, ◌++◌,
}
use deepspace_outpost_dx.Base.Int.{ℤ}
use deepspace_outpost_dx.Persist.Rows.{CommandLogEntry, MarketRow, PlayerPersistState}
use deepspace_outpost_dx.Persist.Store.{
  put_name, values, Store, put_market, upsert_player, load_player, append_commands,
  upsert_market_rows,
}

pub record LoadResult : Type 0 where
  pub commander_name : List ℕ
  pub state : Option PlayerPersistState

pub record Service : Type 0 where
  pub store : Store
  pub ring_cap : ℕ
  pub pending_players : List (List ℕ × PlayerPersistState)
  pub pending_commands : List CommandLogEntry
  pub pending_markets : List ((ℤ × ℤ) × MarketRow)
  pub pending_loads : List (List ℕ)
  pub completed_loads : List LoadResult
  pub dropped_commands : ℕ

unfoldable pub queue_player_snapshot : PlayerPersistState → Service → Service
queue_player_snapshot p s = record s {
  pending_players = put_name p.commander_name p s.pending_players;
}

-- The loop drops the oldest entries while there are more than the ring takes.
unfoldable pub queue_command : CommandLogEntry → Service → Service
queue_command e s =
    let longer = s.pending_commands ++ e ∷ [] in
    let over = length longer - s.ring_cap in
    record s {
      pending_commands = drop over longer;
      dropped_commands = (s.dropped_commands + over) % 2 ^ 64;
    }

unfoldable pub queue_market_rows : List MarketRow → Service → Service
queue_market_rows rows s = record s { pending_markets = put_market rows s.pending_markets }

unfoldable pub request_load : List ℕ → Service → Service
request_load name s = record s { pending_loads = s.pending_loads ++ name ∷ [] }

unfoldable pub drain_loads : Service → List LoadResult × Service
drain_loads s = (s.completed_loads, record s { completed_loads = [] })

unfoldable pub has_pending : Service → Bool
has_pending s =
    not (length s.pending_players == 0)
    || not (length s.pending_commands == 0)
    || not (length s.pending_markets == 0)
    || not (length s.pending_loads == 0)

unfoldable pub upsert_players : List (List ℕ × PlayerPersistState) → Store → Store
upsert_players [] st = st
upsert_players ((name, p) ∷ ps) st = upsert_players ps (upsert_player p st)

unfoldable pub load_all : List (List ℕ) → Store → List LoadResult
load_all [] st = []
load_all (name ∷ names) st =
    record { commander_name = name; state = load_player name st } ∷ load_all names st

unfoldable pub flush_pending_once : Service → ℕ × Service
flush_pending_once s =
    let players = upsert_players s.pending_players s.store in
    let commands = append_commands s.pending_commands players in
    let st = upsert_market_rows (values s.pending_markets) commands in
    (
      length s.pending_players,
      record s {
        store = st;
        pending_players = [];
        pending_commands = [];
        pending_markets = [];
        pending_loads = [];
        completed_loads = s.completed_loads ++ load_all s.pending_loads st;
      },
    )
