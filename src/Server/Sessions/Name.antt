-- ===== src/Server/Sessions/Name.antt =====
-- Commander names: `SanitizeName`, `UniqueName` and `ApplyNameTo` of GameLogic/ServerSessions.h.
-- A name is the list of its bytes.
use deepspace_outpost_dx.Base.{
  ltb, leb, ◌==◌, if◌then◌else◌, length, lookup, ℕ, zero, suc, ◌+◌, ◌/◌, ◌%◌, Bool, true, false,
  not, ◌&&◌, ◌||◌, none, some, List, [], ◌∷◌, ◌++◌,
}
use deepspace_outpost_dx.Game.Chat.{trim_back}
use deepspace_outpost_dx.Persist.Store.{same_name}
use deepspace_outpost_dx.Server.{NetEndpoint, endpoint_key}
use deepspace_outpost_dx.Server.Sessions.{max_name_len, Session, Sessions, write_session}

-- `out` is what the loop has kept.
unfoldable pub keep_ascii : List ℕ → List ℕ → List ℕ
keep_ascii out [] = out
keep_ascii out (c ∷ cs) =
    let out' = if leb 0x20 c && ltb c 0x7F then out ++ c ∷ [] else out in
    let rest = keep_ascii out' cs in if leb max_name_len (length out') then out' else rest

unfoldable pub sanitize_name : List ℕ → List ℕ
sanitize_name raw = trim_back (keep_ascii [] raw)

-- `std::to_string` of a number of at most as many digits as the fuel.
unfoldable pub to_digits : ℕ → ℕ → List ℕ
to_digits zero n = []
to_digits (suc fuel) n =
    let front = to_digits fuel (n / 10) in
    if ltb n 10 then (0x30 + n) ∷ [] else front ++ (0x30 + n % 10) ∷ []

-- The lambda `taken`.
unfoldable pub is_taken : ℕ → List (ℕ × Session) → List ℕ → Bool
is_taken self [] name = false
is_taken self ((k, s) ∷ es) name =
    (not (k == self) && same_name s.name name) || is_taken self es name

unfoldable pub candidate : List ℕ → ℕ → List ℕ
candidate base i = base ++ 0x2D ∷ to_digits 10 i

-- The loop over i, `left` of the values up to 999 being left.
unfoldable pub first_free : ℕ → List (ℕ × Session) → List ℕ → ℕ → ℕ → List ℕ
first_free self es base i zero = base
first_free self es base i (suc left) =
    let rest = first_free self es base (suc i) left in
    if is_taken self es (candidate base i) then rest else candidate base i

unfoldable pub unique_name : List ℕ → ℕ → List (ℕ × Session) → List ℕ
unique_name base self es = if is_taken self es base then first_free self es base 2 998 else base

-- "Commander-"
abbrev pub commander : List ℕ
commander = 0x43 ∷ 0x6F ∷ 0x6D ∷ 0x6D ∷ 0x61 ∷ 0x6E ∷ 0x64 ∷ 0x65 ∷ 0x72 ∷ 0x2D ∷ []

abbrev pub is_empty : List ℕ → Bool
is_empty [] = true
is_empty (c ∷ cs) = false

-- The name of a session that is spawned, from its sanitized name.
unfoldable pub spawn_name : List ℕ → ℕ → ℕ → List (ℕ × Session) → List ℕ
spawn_name clean index self es =
    if is_empty clean then commander ++ to_digits 10 index else unique_name clean self es

unfoldable pub apply_name_to : Session → ℕ → List ℕ → List (ℕ × Session) → Bool × Session
apply_name_to s k raw es =
    let clean = sanitize_name raw in
    let name = unique_name clean k es in
    if is_empty clean || same_name name s.name then (false, s) else (true, record s { name = name })

unfoldable pub apply_name : NetEndpoint → List ℕ → Sessions → Bool × Sessions
apply_name ep raw st =
    let k = endpoint_key ep in
    elim (lookup k st.table.sessions) [
      | none ↦ (false, st)
      | some s ↦
          let (changed, s') = apply_name_to s k raw st.table.sessions in
          (changed, write_session k s' st)
    ]
