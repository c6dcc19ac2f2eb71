-- ===== src/Server/Sessions/Clean.antt =====
-- What is left of a commander name after `SanitizeName`.
use deepspace_outpost_dx.Base.{
  ltb, leb, ◌==◌, Bool-cases, length, All, length-append, ℕ, ◌≤◌, ◌<◌, ◌≡◌, inl, inr, false, ◌&&◌,
  List, [], ◌∷◌, ◌++◌, arith,
}
use deepspace_outpost_dx.Game.Chat.{put_front, trim_back, EndsWell, trim_back_lem}
use deepspace_outpost_dx.Server.Sessions.{max_name_len}
use deepspace_outpost_dx.Server.Sessions.Name.{keep_ascii, sanitize_name}

abbrev pub IsAscii : ℕ → Type 0
IsAscii c = (0x20 ≤ c) × (c < 0x7F)

All-push : (out : List ℕ) (c : ℕ) → All IsAscii out → IsAscii c → All IsAscii (out ++ c ∷ [])
All-push [] c h p = (p, tt)
All-push (x ∷ xs) c h p = (h.0, All-push xs c h.1 p)

keep_ascii_lem :
    (out raw : List ℕ)
    → All IsAscii out
    → length out < max_name_len
    → All IsAscii (keep_ascii out raw) × (length (keep_ascii out raw) ≤ max_name_len)
unfolding keep_ascii
keep_ascii_lem out [] h n = (h, omega arith)
keep_ascii_lem out (c ∷ cs) h n =
    let at_end = length-append out (c ∷ []) in
    let short : leb max_name_len (length out) ≡ false = ground arith in
    elim (Bool-cases (leb 0x20 c && ltb c 0x7F)) [
      | inr control ↦ rw (control, short) (keep_ascii_lem out cs h n)
      | inl shown ↦
          let more = All-push out c h (ground (arith, shown), ground (arith, shown)) in
          elim (Bool-cases (leb max_name_len (length (out ++ c ∷ [])))) [
            | inl full ↦ rw (shown, full) (more, omega arith)
            | inr room ↦ rw (shown, room) (keep_ascii_lem (out ++ c ∷ []) cs more (ground arith))
          ]
    ]

All-put_front :
    (c : ℕ) (rest : List ℕ) → IsAscii c → All IsAscii rest → All IsAscii (put_front c rest)
All-put_front c [] p h = elim (Bool-cases (c == 0x20)) [
  | inl space ↦ rw space tt
  | inr other ↦ rw other (p, tt)
]
All-put_front c (d ∷ ds) p h = (p, h)

All-trim_back : (cs : List ℕ) → All IsAscii cs → All IsAscii (trim_back cs)
unfolding trim_back
All-trim_back [] h = tt
All-trim_back (c ∷ cs) h = All-put_front c (trim_back cs) h.0 (All-trim_back cs h.1)

-- Of any bytes, the name that is kept is printable ASCII, does not end in a space, and is at most
-- 20 bytes long.
pub sanitize_name-IsAscii :
    (raw : List ℕ)
    → All IsAscii (sanitize_name raw)
      × EndsWell (sanitize_name raw)
      × (length (sanitize_name raw) ≤ max_name_len)
unfolding sanitize_name
sanitize_name-IsAscii raw =
    let (ascii, short) = keep_ascii_lem [] raw tt (omega arith) in
    let (well, shorter) = trim_back_lem (keep_ascii [] raw) in
    (All-trim_back _ ascii, well, omega arith)
