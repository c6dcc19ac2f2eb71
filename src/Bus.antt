-- ===== src/Bus.antt =====
-- NeuronCore/Messages/MessageBus.h: the local bus. A message is an id, a scope and a payload; what a
-- handler does is a parameter, by its token: it may publish, subscribe and unsubscribe.
pub mod Order
pub mod Delivery
mod Tests
use deepspace_outpost_dx.Base.{
  ltb, leb, ◌==◌, if◌then◌else◌, length, get_elem?, lookup, insert, ℕ, zero, suc, ◌+◌, ◌%◌, ◌^◌,
  Bool, true, false, Option, none, some, List, [], ◌∷◌, ◌++◌,
}

abbrev pub max_generations : ℕ
max_generations = 16

abbrev pub max_queue_depth : ℕ
max_queue_depth = 4096

pub data Scope : Type 0 where
  local_only wire control debug_only tooling : Scope

pub record DispatchStats : Type 0 where
  pub published : ℕ
  pub dispatched : ℕ
  pub dropped : ℕ
  pub generations : ℕ
  pub max_queue_depth_seen : ℕ

pub record Handler : Type 0 where
  pub token : ℕ
  pub active : Bool

pub record Queued (A : Type 0) : Type 0 where
  pub id : ℕ
  pub scope : Scope
  pub seq : ℕ
  pub payload : A

pub record Bus (A : Type 0) : Type 0 where
  pub handlers : List (ℕ × List Handler)
  pub queue : List (Queued A)
  pub stats : DispatchStats
  pub next_token : ℕ
  pub seq : ℕ
  pub dirty : Bool

abbrev pub handlers_or_nil : Option (List Handler) → List Handler
handlers_or_nil none = []
handlers_or_nil (some hs) = hs

abbrev pub is_control : Scope → Bool
is_control control = true
is_control _ = false

-- The first handler with the token, in the lists of all ids.
unfoldable pub deactivate : ℕ → List Handler → Bool × List Handler
deactivate token [] = (false, [])
deactivate token (h ∷ hs) =
    let (found, rest) = deactivate token hs in
    if h.token == token then (true, record h { active = false } ∷ hs) else (found, h ∷ rest)

unfoldable pub deactivate_in : ℕ → List (ℕ × List Handler) → Bool × List (ℕ × List Handler)
deactivate_in token [] = (false, [])
deactivate_in token ((id, hs) ∷ d) =
    let (here, hs') = deactivate token hs in
    let (later, d') = deactivate_in token d in
    if here then (true, (id, hs') ∷ d) else (later, (id, hs) ∷ d')

unfoldable pub keep_active : List Handler → List Handler
keep_active [] = []
keep_active (h ∷ hs) = let rest = keep_active hs in if h.active then h ∷ rest else rest

unfoldable pub prune_all : List (ℕ × List Handler) → List (ℕ × List Handler)
prune_all [] = []
prune_all ((id, hs) ∷ d) = (id, keep_active hs) ∷ prune_all d

abbrev pub no_stats : DispatchStats
no_stats = record {
  published = 0;
  dispatched = 0;
  dropped = 0;
  generations = 0;
  max_queue_depth_seen = 0;
}

module _ {A : Type 0} where
  unfoldable pub subscribe : ℕ → Bus A → ℕ × Bus A
  subscribe id b =
      let token = (b.next_token + 1) % 2 ^ 64 in
      let hs = handlers_or_nil (lookup id b.handlers) in
      (
        token,
        record b {
          next_token = token;
          handlers = insert id (hs ++ record { token = token; active = true } ∷ []) b.handlers;
        },
      )

  unfoldable pub unsubscribe : ℕ → Bus A → Bus A
  unsubscribe token b =
      let (found, handlers) = deactivate_in token b.handlers in
      if found then record b { handlers = handlers; dirty = true } else b

  -- The queue without its oldest message that may be dropped, and how many were dropped.
  unfoldable pub evict : List (Queued A) → ℕ × List (Queued A)
  evict [] = (0, [])
  evict (q ∷ qs) = let (n, rest) = evict qs in if is_control q.scope then (n, q ∷ rest) else (1, qs)

  unfoldable pub publish : ℕ → Scope → A → Bus A → Bus A
  publish id scope payload b =
      let full = leb max_queue_depth (length b.queue) in
      let (n, left) = if full then evict b.queue else (0, b.queue) in
      let seq = (b.seq + 1) % 2 ^ 64 in
      let queue = left ++ record { id = id; scope = scope; seq = seq; payload = payload } ∷ [] in
      let seen = b.stats.max_queue_depth_seen in
      record b {
        seq = seq;
        queue = queue;
        stats = record b.stats {
          published = (b.stats.published + 1) % 2 ^ 64;
          dropped = (b.stats.dropped + n) % 2 ^ 64;
          max_queue_depth_seen = if ltb seen (length queue) then length queue else seen;
        };
      }

  unfoldable pub prune_inactive : Bus A → Bus A
  prune_inactive b = record b { handlers = prune_all b.handlers; dirty = false }

  unfoldable pub pending_count : Bus A → ℕ
  pending_count b = length b.queue

  unfoldable pub reset_stats : Bus A → Bus A
  reset_stats b = record b { stats = no_stats }

module _ {A : Type 0} (invoke : ℕ → A → Bus A → Bus A) where
  -- The handlers of an id from the `i`-th on; whether one is active is read when its turn comes. The
  -- code iterates over the list itself, which a handler that subscribes to the same id may move.
  unfoldable pub invoke_from : ℕ → ℕ → ℕ → A → Bus A → Bus A
  invoke_from zero i id payload b = b
  invoke_from (suc n) i id payload b =
      let b' : Bus A = elim (get_elem? (handlers_or_nil (lookup id b.handlers)) i) [
        | none ↦ b
        | some h ↦ if h.active then invoke h.token payload b else b
      ] in
      invoke_from n (i + 1) id payload b'

  unfoldable pub run_batch : List (Queued A) → Bus A → Bus A
  run_batch [] b = b
  run_batch (q ∷ qs) b =
      let b' = invoke_from (length (handlers_or_nil (lookup q.id b.handlers))) 0 q.id q.payload b in
      run_batch qs
        (record b' { stats = record b'.stats { dispatched = (b'.stats.dispatched + 1) % 2 ^ 64 } })

  unfoldable pub generation : Bus A → Bus A
  generation b =
      let b' = run_batch b.queue (record b { queue = [] }) in
      let c = record b' {
        stats = record b'.stats { generations = (b'.stats.generations + 1) % 2 ^ 64 };
      } in
      if c.dirty then prune_inactive c else c

  abbrev pub drop_all : Bus A → Bus A
  drop_all b = record b {
    queue = [];
    stats = record b.stats { dropped = (b.stats.dropped + length b.queue) % 2 ^ 64 };
  }

  -- The loop of Dispatch, with the generations that are left.
  unfoldable pub drain : ℕ → Bus A → Bus A
  drain zero b = elim b.queue [ [] ↦ b | q ∷ qs ↦ drop_all b ]
  drain (suc n) b = let next = drain n (generation b) in elim b.queue [ [] ↦ b | q ∷ qs ↦ next ]

  unfoldable pub dispatch : Bus A → Bus A
  dispatch b = drain max_generations b
