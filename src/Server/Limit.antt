-- ===== src/Server/Limit.antt =====
-- The budget of an endpoint for datagrams without a token: `RateLimited` of GameLogic/ServerSessions.h
-- and NeuronServer/AdminChannel.h, with the two servers' own limits.
use deepspace_outpost_dx.Base.{
  ltb, leb, if◌then◌else◌, Bool-cases, All, drop, lookup, insert, ℕ, ◌+◌, ◌-◌, ◌%◌, ◌^◌, ◌≤◌, ◌<◌,
  ◌≡◌, refl, ap, ◌∙◌, inl, inr, Bool, true, false, ◌&&◌, Option, none, some, List, [], ◌∷◌, arith,
}

pub record RateInfo : Type 0 where
  pub window_start : ℕ
  pub count : ℕ
  pub key_failures : ℕ
  pub muted_until : ℕ

abbrev pub new_rate : RateInfo
new_rate = record { window_start = 0; count = 0; key_failures = 0; muted_until = 0 }

pub record Limits : Type 0 where
  pub window : ℕ
  pub most : ℕ
  pub mute : ℕ

abbrev pub rate_or_new : Option RateInfo → RateInfo
rate_or_new none = new_rate
rate_or_new (some r) = r

-- Ticks are of 32 bits and `_tick - windowStart` wraps.
abbrev pub since : ℕ → ℕ → ℕ
since tick start = (tick + 2 ^ 32 - start) % 2 ^ 32

abbrev pub open_window : Limits → ℕ → RateInfo → RateInfo
open_window l tick r =
    if leb l.window (since tick r.window_start)
    then record r { window_start = tick; count = 0 }
    else r

abbrev pub charge_open : Limits → ℕ → RateInfo → Bool × RateInfo
charge_open l tick r =
    let count = (r.count + 1) % 2 ^ 16 in
    if ltb l.most count
    then (true, record r { count = count; muted_until = (tick + l.mute) % 2 ^ 32 })
    else (false, record r { count = count })

-- Whether one datagram at the tick is dropped, and the budget after it.
unfoldable pub charge : Limits → ℕ → RateInfo → Bool × RateInfo
charge l tick r =
    if ltb tick r.muted_until then (true, r) else charge_open l tick (open_window l tick r)

unfoldable pub rate_limited : Limits → ℕ → ℕ → List (ℕ × RateInfo) → Bool × List (ℕ × RateInfo)
rate_limited l key tick rates =
    let (drop, r) = charge l tick (rate_or_new (lookup key rates)) in (drop, insert key r rates)

-- The loop at the end of `Reap` and `WriteDatagrams` over the budgets.
unfoldable pub drop_stale : ℕ → ℕ → List (ℕ × RateInfo) → List (ℕ × RateInfo)
drop_stale tick idle [] = []
drop_stale tick idle ((k, r) ∷ rs) =
    let rest = drop_stale tick idle rs in
    if leb r.muted_until tick && ltb idle (since tick r.window_start) then rest else (k, r) ∷ rest

-- How many datagrams at these ticks are not dropped.
abbrev pub passed : Limits → List ℕ → RateInfo → ℕ
passed l [] r = 0
passed l (t ∷ ts) r = let (drop, r') = charge l t r in (if drop then 0 else 1) + passed l ts r'

abbrev pub IsWithin : Limits → ℕ → ℕ → Type 0
IsWithin l start t = (start ≤ t) × (t < start + l.window) × (t < 2 ^ 32)

charge_muted :
    (l : Limits) (t : ℕ) (r : RateInfo) → ltb t r.muted_until ≡ true → charge l t r ≡ (true, r)
unfolding charge
charge_muted l t r h = rw h refl

open_window_same :
    (l : Limits) (t : ℕ) (r : RateInfo) → IsWithin l r.window_start t → open_window l t r ≡ r
open_window_same l t r h = ground arith

charge_lem :
    (l : Limits) (t : ℕ) (r : RateInfo)
    → IsWithin l r.window_start t
    → ltb t r.muted_until ≡ false
    → charge l t r ≡ charge_open l t r
unfolding charge
charge_lem l t r w h = rw h (ap (charge_open l t) (open_window_same l t r w))

-- What the bound asks of the limits; both servers' keep to it.
pub record IsSane (l : Limits) : Type 0 where
  pub some_pass : 1 ≤ l.most
  pub counted : l.most + 1 < 2 ^ 16
  pub long_mute : l.window ≤ l.mute

-- A tick of the window, early enough that the mute it may start does not wrap.
abbrev pub IsInWindow : Limits → ℕ → ℕ → Type 0
IsInWindow l start t = IsWithin l start t × (t + l.mute < 2 ^ 32)

charge_full :
    (l : Limits) (t : ℕ) (r : RateInfo)
    → l.most + 1 < 2 ^ 16
    → r.count ≤ l.most
    → IsInWindow l r.window_start t
    → ltb t r.muted_until ≡ false
    → ltb l.most (r.count + 1) ≡ true
    → charge l t r ≡ (true, record r { count = r.count + 1; muted_until = t + l.mute })
charge_full l t r s c w h full =
    charge_lem l t r w.0 h
    ∙ rw (small (r.count + 1) (omega arith), full, late (t + l.mute) (omega arith)) refl
  where
    small : (n : ℕ) → n < 2 ^ 16 → n % 2 ^ 16 ≡ n
    small n g = omega arith

    late : (n : ℕ) → n < 2 ^ 32 → n % 2 ^ 32 ≡ n
    late n g = omega arith

charge_room :
    (l : Limits) (t : ℕ) (r : RateInfo)
    → l.most + 1 < 2 ^ 16
    → r.count ≤ l.most
    → IsInWindow l r.window_start t
    → ltb t r.muted_until ≡ false
    → ltb l.most (r.count + 1) ≡ false
    → charge l t r ≡ (false, record r { count = r.count + 1 })
charge_room l t r s c w h room =
    charge_lem l t r w.0 h ∙ rw (small (r.count + 1) (omega arith), room) refl
  where
    small : (n : ℕ) → n < 2 ^ 16 → n % 2 ^ 16 ≡ n
    small n g = omega arith

passed_drop :
    (l : Limits) (t : ℕ) (ts : List ℕ) (r q : RateInfo)
    → charge l t r ≡ (true, q)
    → passed l (t ∷ ts) r ≡ passed l ts q
passed_drop l t ts r q h = rw h (omega arith)

passed_pass :
    (l : Limits) (t : ℕ) (ts : List ℕ) (r q : RateInfo)
    → charge l t r ≡ (false, q)
    → passed l (t ∷ ts) r ≡ 1 + passed l ts q
passed_pass l t ts r q h = rw h refl

passed_muted :
    (l : Limits) (ts : List ℕ) (r : RateInfo)
    → r.window_start + l.window ≤ r.muted_until
    → All (IsInWindow l r.window_start) ts
    → passed l ts r ≡ 0
passed_muted l [] r m h = refl
passed_muted l (t ∷ ts) r m h =
    passed_drop l t ts r r (charge_muted l t r (ground arith)) ∙ passed_muted l ts r m h.1

-- In an open window, what has passed and what will is within the limit.
passed_open :
    (l : Limits) (ts : List ℕ) (r : RateInfo)
    → IsSane l
    → r.count ≤ l.most
    → All (IsInWindow l r.window_start) ts
    → r.count + passed l ts r ≤ l.most
passed_open l [] r s c h = omega arith
passed_open l (t ∷ ts) r s c h = elim (Bool-cases (ltb t r.muted_until)) [
  | inl muted ↦
      omega (arith, passed_drop l t ts r r (charge_muted l t r muted), passed_open l ts r s c h.1)
  | inr heard ↦ elim (Bool-cases (ltb l.most (r.count + 1))) [
    | inl full ↦ omega (
      arith,
      passed_drop l t ts r _ (charge_full l t r s.counted c h.0 heard full),
      passed_muted l ts (record r { count = r.count + 1; muted_until = t + l.mute })
          (ground (arith, s.long_mute, h.0)) h.1,
    )
    | inr room ↦ omega (
      arith,
      passed_pass l t ts r _ (charge_room l t r s.counted c h.0 heard room),
      passed_open l ts (record r { count = r.count + 1 }) s (ground arith) h.1,
    )
  ]
]

-- The tick that opens a window, after the last mute has ended.
charge_opens :
    (l : Limits) (start : ℕ) (r : RateInfo)
    → IsSane l
    → r.muted_until ≤ start
    → l.window ≤ since start r.window_start
    → charge l start r ≡ (false, record r { window_start = start; count = 1 })
unfolding charge
charge_opens l start r s m w = ground (arith, s.some_pass, s.counted)

-- From a datagram that opens a window of an endpoint whose mute is over, that one included, at most
-- the limit of datagrams at ticks of the window pass, whatever their order, if a mute that starts
-- in the window ends before the 32 bits of a tick do.
pub passed-bounded :
    (l : Limits) (start : ℕ) (ts : List ℕ) (r : RateInfo)
    → IsSane l
    → r.muted_until ≤ start
    → l.window ≤ since start r.window_start
    → All (IsInWindow l start) ts
    → passed l (start ∷ ts) r ≤ l.most
passed-bounded l start ts r s m w h = omega (
  arith,
  passed_pass l start ts r _ (charge_opens l start r s m w),
  passed_open l ts (record r { window_start = start; count = 1 }) s s.some_pass h,
)
