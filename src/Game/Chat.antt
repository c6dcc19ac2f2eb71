-- ===== src/Game/Chat.antt =====
-- GameLogic/ChatModeration.h: how often a player may chat, and what of a line is passed on.
use deepspace_outpost_dx.Base.{
  leb, ◌==◌, if◌then◌else◌, eq→==, Bool-cases, length, All, length-append, ℕ, ◌+◌, ◌-◌, ◌%◌, ◌^◌,
  ◌≤◌, ◌<◌, ◌≡◌, refl, ◌≢◌, inl, inr, Bool, true, false, not, ◌||◌, List, [], ◌∷◌, ◌++◌, arith,
}

abbrev pub chat_window_ticks : ℕ
chat_window_ticks = 300

abbrev pub chat_max_per_window : ℕ
chat_max_per_window = 6

abbrev pub chat_max_len : ℕ
chat_max_len = 200

pub record ChatLimiter : Type 0 where
  pub window_start : ℕ
  pub count : ℕ
  pub started : Bool

abbrev pub new_limiter : ChatLimiter
new_limiter = record { window_start = 0; count = 0; started = false }

unfoldable pub open_window : ℕ → ChatLimiter → ChatLimiter
open_window tick l =
    let age = (tick + 2 ^ 32 - l.window_start) % 2 ^ 32 in
    if not l.started || leb chat_window_ticks age
    then record { window_start = tick; count = 0; started = true }
    else l

unfoldable pub chat_allowed : ℕ → ChatLimiter → Bool × ChatLimiter
chat_allowed tick l =
    let w = open_window tick l in
    if leb chat_max_per_window w.count then (false, w) else (true, record w { count = w.count + 1 })

-- A line is the list of its bytes; `out` is what the loop has kept.
unfoldable pub keep_printable : List ℕ → List ℕ → List ℕ
keep_printable out [] = out
keep_printable out (c ∷ cs) =
    let out' = if leb 0x20 c then out ++ c ∷ [] else out in
    let rest = keep_printable out' cs in if leb chat_max_len (length out') then out' else rest

-- A byte in front of a line without spaces at its back; it goes if it is then the last one and a space.
abbrev pub put_front : ℕ → List ℕ → List ℕ
put_front c [] = if c == 0x20 then [] else c ∷ []
put_front c (d ∷ ds) = c ∷ d ∷ ds

-- The loop that takes spaces from the back.
unfoldable pub trim_back : List ℕ → List ℕ
trim_back [] = []
trim_back (c ∷ cs) = put_front c (trim_back cs)

unfoldable pub sanitize_chat : List ℕ → List ℕ
sanitize_chat raw = trim_back (keep_printable [] raw)

-- How many of the lines at these ticks are allowed.
abbrev pub allowed : List ℕ → ChatLimiter → ℕ
allowed [] l = 0
allowed (t ∷ ts) l = let (may, l') = chat_allowed t l in (if may then 1 else 0) + allowed ts l'

abbrev pub IsWithin : ℕ → ℕ → Type 0
IsWithin start t = (start ≤ t) × (t < start + chat_window_ticks) × (t < 2 ^ 32)

open_window_same :
    (t : ℕ) (l : ChatLimiter) → l.started ≡ true → IsWithin l.window_start t → open_window t l ≡ l
unfolding open_window
open_window_same t l s h = ground arith

allowed_full :
    (t : ℕ) (ts : List ℕ) (l : ChatLimiter)
    → open_window t l ≡ l
    → leb chat_max_per_window l.count ≡ true
    → allowed (t ∷ ts) l ≡ allowed ts l
unfolding chat_allowed
allowed_full t ts l same full = rw (same, full) (omega arith)

allowed_one :
    (t : ℕ) (ts : List ℕ) (l : ChatLimiter)
    → open_window t l ≡ l
    → leb chat_max_per_window l.count ≡ false
    → allowed (t ∷ ts) l ≡ 1 + allowed ts (record l { count = l.count + 1 })
unfolding chat_allowed
allowed_one t ts l same free = rw (same, free) refl

allowed_open :
    (ts : List ℕ) (l : ChatLimiter)
    → l.started ≡ true
    → l.count ≤ chat_max_per_window
    → All (IsWithin l.window_start) ts
    → l.count + allowed ts l ≤ chat_max_per_window
allowed_open [] l s c h = omega arith
allowed_open (t ∷ ts) l s c h =
    let same = open_window_same t l s h.0 in
    elim (Bool-cases (leb chat_max_per_window l.count)) [
      | inl full ↦ omega (arith, allowed_full t ts l same full, allowed_open ts l s c h.1)
      | inr free ↦ omega (
        arith,
        allowed_one t ts l same free,
        allowed_open ts (record l { count = l.count + 1 }) s (ground arith) h.1,
      )
    ]

-- After a line at tick start has opened the window of a new limiter, at most six lines, that one
-- included, are allowed at ticks of the 300 from start on, whatever their order, if the ticks fit
-- 32 bits.
pub allowed-bounded :
    (start : ℕ) (ts : List ℕ)
    → start < 2 ^ 32
    → All (IsWithin start) ts
    → allowed (start ∷ ts) new_limiter ≤ chat_max_per_window
unfolding chat_allowed open_window
allowed-bounded start ts lo h = omega (
  arith,
  allowed_open ts (record { window_start = start; count = 1; started = true }) refl (omega arith) h,
)

abbrev pub IsPrintable : ℕ → Type 0
IsPrintable c = 0x20 ≤ c

abbrev pub EndsWell : List ℕ → Type 0
EndsWell [] = Unit {0}
EndsWell (c ∷ []) = c ≢ 0x20
EndsWell (c ∷ d ∷ cs) = EndsWell (d ∷ cs)

All-push :
    (out : List ℕ) (c : ℕ) → All IsPrintable out → IsPrintable c → All IsPrintable (out ++ c ∷ [])
All-push [] c h p = (p, tt)
All-push (x ∷ xs) c h p = (h.0, All-push xs c h.1 p)

leb_short : (out : List ℕ) → length out < chat_max_len → leb chat_max_len (length out) ≡ false
leb_short out n = ground arith

keep_printable_lem :
    (out raw : List ℕ)
    → All IsPrintable out
    → length out < chat_max_len
    → All IsPrintable (keep_printable out raw) × (length (keep_printable out raw) ≤ chat_max_len)
unfolding keep_printable
keep_printable_lem out [] h n = (h, omega arith)
keep_printable_lem out (c ∷ cs) h n =
    let at_end = length-append out (c ∷ []) in
    elim (Bool-cases (leb 0x20 c)) [
      | inr control ↦ rw (control, leb_short out n) (keep_printable_lem out cs h n)
      | inl shown ↦
          let more = All-push out c h (ground arith) in
          elim (Bool-cases (leb chat_max_len (length (out ++ c ∷ [])))) [
            | inl full ↦ rw (shown, full) (more, omega arith)
            | inr room ↦
                rw (shown, room) (keep_printable_lem (out ++ c ∷ []) cs more (ground arith))
          ]
    ]

All-trim_back : (cs : List ℕ) → All IsPrintable cs → All IsPrintable (trim_back cs)
unfolding trim_back
All-trim_back [] h = tt
All-trim_back (c ∷ cs) h = go (trim_back cs) (All-trim_back cs h.1)
  where
    go : (rest : List ℕ) → All IsPrintable rest → All IsPrintable (put_front c rest)
    go [] g = elim (Bool-cases (c == 0x20)) [
      | inl space ↦ rw space tt
      | inr other ↦ rw other (h.0, tt)
    ]
    go (d ∷ ds) g = (h.0, g)

pub trim_back_lem : (cs : List ℕ) → EndsWell (trim_back cs) × (length (trim_back cs) ≤ length cs)
unfolding trim_back
trim_back_lem [] = (tt, omega arith)
trim_back_lem (c ∷ cs) = go (trim_back cs) (trim_back_lem cs)
  where
    go :
        (rest : List ℕ)
        → EndsWell rest × (length rest ≤ length cs)
        → EndsWell (put_front c rest) × (length (put_front c rest) ≤ length (c ∷ cs))
    go [] g = elim (Bool-cases (c == 0x20)) [
      | inl space ↦ rw space (tt, omega arith)
      | inr other ↦ rw other ((λ e. (let t : (c == 0x20) ≡ true = eq→== _ _ e in cc)), omega arith)
    ]
    go (d ∷ ds) g = (g.0, omega arith)

-- Of any line, what is passed on has no control character, does not end in a space, and is at most
-- 200 bytes long.
pub sanitize_chat-IsPrintable :
    (raw : List ℕ)
    → All IsPrintable (sanitize_chat raw)
      × EndsWell (sanitize_chat raw)
      × (length (sanitize_chat raw) ≤ chat_max_len)
unfolding sanitize_chat
sanitize_chat-IsPrintable raw =
    let (printable, short) = keep_printable_lem [] raw tt (omega arith) in
    let (well, shorter) = trim_back_lem (keep_printable [] raw) in
    (All-trim_back _ printable, well, omega arith)
