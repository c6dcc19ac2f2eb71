-- ===== src/Framing/Robust.antt =====
-- The loop of ReadPacket over the records, on any bytes.
use mathlib.Core.Path.{subst₂}
use deepspace_outpost_dx.Base.{
  ◌==◌, eq→==, ==→eq, Bool-cases, Option-cases, length, All, length-drop, ℕ, zero, suc, ◌^◌, ◌≤◌,
  ◌<◌, ◌≡◌, refl, sym, ap, subst, ◌∙◌, ◌≢◌, inl, inr, Bool, true, false, none, some, List, [], ◌∷◌,
  ◌++◌, append_assoc, append-nil, arith,
}
use deepspace_outpost_dx.Wire.{Reader, read_u16, read_bytes, ok, remaining}
use deepspace_outpost_dx.Wire.RoundTrip.{bytes_u16}
use deepspace_outpost_dx.Wire.Bounds.{advance_u16, advance_bytes}
use deepspace_outpost_dx.Wire.Sound.{IsByte, left_bytes, Took-u16, took_bytes}
use deepspace_outpost_dx.Framing.{Record, read_record, read_records}
use deepspace_outpost_dx.Framing.RoundTrip.{FitsRecord, record_bytes, records_bytes}

-- A round that succeeds took the encoding of its record.
record TookRecord (r : Reader) (m : Record) (r' : Reader) : Type 0 where
  pub was_ok : r.failed ≡ false
  pub still_ok : r'.failed ≡ false
  pub fits : FitsRecord m
  pub bytes_left : All IsByte r'.rest
  pub encoded : r.rest ≡ record_bytes m ++ r'.rest

-- The readers between the fields of a record.
abbrev after_id : Reader → Reader
after_id r = (read_u16 r).1

abbrev after_length : Reader → Reader
after_length r = (read_u16 (after_id r)).1

abbrev read_payload : Reader → List ℕ × Reader
read_payload r = read_bytes (read_u16 (after_id r)).0 (after_length r)

read_record_cases :
    (r : Reader) (m : Record) (r' : Reader)
    → read_record r ≡ some (m, r')
    → ((read_payload r).1.failed ≡ false)
      × (m ≡ record { id = (read_u16 r).0; payload = (read_payload r).0 })
      × (r' ≡ (read_payload r).1)
unfolding read_record ok
read_record_cases r m r' e = ground arith

took_record :
    (r : Reader)
    → All IsByte r.rest
    → (read_payload r).1.failed ≡ false
    → TookRecord r (record { id = (read_u16 r).0; payload = (read_payload r).0 }) (read_payload r).1
took_record r h e =
    let h₁ = left_bytes 2 r (after_id r) (advance_u16 r) h in
    let h₂ = left_bytes 2 (after_id r) (after_length r) (advance_u16 (after_id r)) h₁ in
    let body = took_bytes (read_u16 (after_id r)).0 (after_length r) h₂ e in
    let len = Took-u16 (after_id r) h₁ body.0 in
    let id = Took-u16 r h len.was_ok in
    record {
      was_ok = id.was_ok;
      still_ok = e;
      fits = (id.small, subst (λ (n : ℕ). n < 2 ^ 16) (sym body.1) len.small);
      bytes_left = body.2;
      encoded =
          id.encoded
          ∙ ap (λ l. bytes_u16 (read_u16 r).0 ++ l) len.encoded
          ∙ ap (λ l. bytes_u16 (read_u16 r).0 ++ (bytes_u16 (read_u16 (after_id r)).0 ++ l)) body.3
          ∙ ap
              (λ n.
                bytes_u16 (read_u16 r).0
                ++ (bytes_u16 n ++ ((read_payload r).0 ++ (read_payload r).1.rest)))
              (sym body.1)
          ∙ simp append_assoc;
    }

read_record_sound :
    (r : Reader) (m : Record) (r' : Reader)
    → All IsByte r.rest
    → read_record r ≡ some (m, r')
    → TookRecord r m r'
read_record_sound r m r' h e =
    let (good, same_m, same_r) = read_record_cases r m r' e in
    subst₂ (TookRecord r) (sym same_m) (sym same_r) (took_record r h good)

-- The records that a successful loop adds are encoded by the bytes it read, and no byte is left.
abbrev pub Parsed : List Record → Reader → Bool × List Record → Type 0
Parsed out r (done, out') =
    done ≡ true
    → (ms : List Record) × (out' ≡ out ++ ms) × All FitsRecord ms × (r.rest ≡ records_bytes ms)

rest_empty : (bs : List ℕ) → (length bs == 0) ≡ true → bs ≡ []
rest_empty [] e = refl
rest_empty (b ∷ bs) e = absurd (omega (arith, ==→eq (length (b ∷ bs)) 0 e))

read_records_done :
    (fuel : ℕ) (out : List Record) (r : Reader)
    → (remaining r == 0) ≡ true
    → read_records (suc fuel) out r ≡ (true, out)
unfolding read_records
read_records_done fuel out r e = rw (e, read_records)

read_records_cut :
    (fuel : ℕ) (out : List Record) (r : Reader)
    → (remaining r == 0) ≡ false
    → read_record r ≡ none
    → read_records (suc fuel) out r ≡ (false, out)
unfolding read_records
read_records_cut fuel out r e n = rw (e, n, read_records)

read_records_next :
    (fuel : ℕ) (out : List Record) (r r' : Reader) (m : Record)
    → (remaining r == 0) ≡ false
    → read_record r ≡ some (m, r')
    → read_records (suc fuel) out r ≡ read_records fuel (out ++ m ∷ []) r'
unfolding read_records
read_records_next fuel out r r' m e n = rw (e, n, read_records)

-- What the rounds after the first one parsed, together with the first record.
Parsed-next :
    (out : List Record) (r r' : Reader) (m : Record) (a : Bool × List Record)
    → TookRecord r m r'
    → Parsed (out ++ m ∷ []) r' a
    → Parsed out r a
Parsed-next out r r' m (done, out') t p e =
    let (ms, same, fits, code) = p e in
    (
      m ∷ ms,
      same ∙ append_assoc out (m ∷ []) ms,
      (t.fits, fits),
      t.encoded ∙ ap (λ l. record_bytes m ++ l) code,
    )

pub read_records_sound :
    (fuel : ℕ) (out : List Record) (r : Reader)
    → All IsByte r.rest
    → Parsed out r (read_records fuel out r)
read_records_sound zero out r h =
    unfold read_records remaining in λ e. ([], sym (append-nil out), tt, rest_empty r.rest e)
read_records_sound (suc fuel) out r h = elim (Bool-cases (remaining r == 0)) [
  | inl done ↦
      subst (Parsed out r) (sym (read_records_done fuel out r done))
        (λ _. ([], sym (append-nil out), tt, rest_empty r.rest (unfold remaining in done)))
  | inr more ↦ elim (Option-cases (read_record r)) [
    | inl e ↦ subst (Parsed out r) (sym (read_records_cut fuel out r more e)) (λ f. cc)
    | inr ((m, r'), e) ↦
        let t = read_record_sound r m r' h e in
        subst (Parsed out r) (sym (read_records_next fuel out r r' m more e))
          (Parsed-next out r r' m _ t (read_records_sound fuel (out ++ m ∷ []) r' t.bytes_left))
  ]
]

-- Past the fuel given by `ReadPacket`, more rounds change nothing: the loop has ended by itself.
record_shrinks :
    (r : Reader) (m : Record) (r' : Reader)
    → read_record r ≡ some (m, r')
    → (remaining r == 0) ≡ false
    → length r'.rest < length r.rest
unfolding remaining
record_shrinks r m r' e more =
    let size = λ (x : Reader). length x.rest in
    let n : ℕ = (read_u16 (after_id r)).0 in
    let some_left : length r.rest ≢ 0 =
      λ z. (let t : (length r.rest == 0) ≡ true = eq→== _ _ z in cc) in
    omega (
      arith,
      some_left,
      ap size (read_record_cases r m r' e).2,
      ap size (advance_bytes n (after_length r)),
      ap size (advance_u16 (after_id r)),
      ap size (advance_u16 r),
      length-drop n (after_length r).rest,
      length-drop 2 (after_id r).rest,
      length-drop 2 r.rest,
    )

-- With as many rounds as the reader has bytes left, the loop over the records has ended by itself:
-- one round more changes nothing.
pub read_records_fuel :
    (fuel : ℕ) (out : List Record) (r : Reader)
    → length r.rest ≤ fuel
    → read_records (suc fuel) out r ≡ read_records fuel out r
read_records_fuel zero out r h =
    let none_left : (remaining r == 0) ≡ true = unfold remaining in eq→== _ _ (omega arith) in
    read_records_done zero out r none_left
    ∙ unfold read_records in ap (λ b. (b, out)) (sym none_left)
read_records_fuel (suc fuel) out r h = elim (Bool-cases (remaining r == 0)) [
  | inl done ↦ read_records_done (suc fuel) out r done ∙ sym (read_records_done fuel out r done)
  | inr more ↦ elim (Option-cases (read_record r)) [
    | inl e ↦ read_records_cut (suc fuel) out r more e ∙ sym (read_records_cut fuel out r more e)
    | inr ((m, r'), e) ↦
        read_records_next (suc fuel) out r r' m more e
        ∙ read_records_fuel fuel (out ++ m ∷ []) r' (omega (arith, record_shrinks r m r' e more))
        ∙ sym (read_records_next fuel out r r' m more e)
  ]
]
