-- ===== src/TaxNumber/Errors.antt =====
-- How `validate_tax_number` fails: which exceptions reach the caller.
use python_diplom.Base.{
  ℕ, zero, suc, ◌+◌, ◌*◌, ◌≤◌, ◌<◌, Char, String, ◌≡◌, refl, inl, inr, Bool, true, false, List, [],
  ◌∷◌, length, none, some, arith, ◌==◌, Option-cases, if◌then◌else◌,
}
use python_diplom.Exn.{Result, ok, err, validation_error, value_error}
use python_diplom.Text.{Unicode, is_empty, len, all_chars, char_at}
use python_diplom.TaxNumber.{
  coefficients, coefficients_1, coefficients_2, strip_separators, isdigit, int_at, control_sum,
  control_digit, validate_inn_10, validate_inn_12, validate_tax_number,
}

-- The caller catches `ValidationError` alone.
abbrev pub IsHandled : {A : Type 0} → Result A → Type 0
IsHandled (ok a) = Unit
IsHandled (err (validation_error f m)) = Unit
IsHandled (err _) = ⊥

module _ ⦃u : Unicode⦄ where
  -- `int` reads the character.
  abbrev pub is_read : Char → Bool
  is_read c = elim (u.digit_value c) [ none ↦ false | some d ↦ true ]

  control_sum_total :
      (ks : List ℕ) (s : String)
      → length ks ≤ len s
      → all_chars is_read s ≡ true
      → (a : ℕ) × (control_sum ks s ≡ ok a)
  unfolding control_sum
  control_sum_total [] s h r = (0, refl)
  control_sum_total (k ∷ ks) String.[] h r = absurd (omega arith)
  control_sum_total (k ∷ ks) (String.◌∷◌ c s) h r = elim (Option-cases (u.digit_value c)) [
    | inl e ↦ absurd (ground arith)
    | inr (d, e) ↦
        (let (a, ih) = control_sum_total ks s (omega arith) (ground arith) in
          (d * k + a, rw (e, ih) refl))
  ]

  int_at_total :
      (s : String) (i : ℕ) → i < len s → all_chars is_read s ≡ true → (d : ℕ) × (int_at s i ≡ ok d)
  int_at_total String.[] i h r = absurd (omega arith)
  int_at_total (String.◌∷◌ c s) zero h r = elim (Option-cases (u.digit_value c)) [
    | inl e ↦ absurd (ground arith)
    | inr (d, e) ↦ (d, rw e refl)
  ]
  int_at_total (String.◌∷◌ c s) (suc i) h r = int_at_total s i (omega arith) (ground arith)

  validate_inn_10_total :
      (s : String)
      → len s ≡ 10
      → all_chars is_read s ≡ true
      → (b : Bool) × (validate_inn_10 s ≡ ok b)
  unfolding validate_inn_10
  validate_inn_10_total s h r =
      let (a, ha) = control_sum_total coefficients s (omega arith) r in
      let (d, hd) = int_at_total s 9 (omega arith) r in (control_digit a == d, rw (ha, hd) refl)

  second_digit : Bool → ℕ → ℕ → Bool
  second_digit first a d = if first then control_digit a == d else false

  validate_inn_12_total :
      (s : String)
      → len s ≡ 12
      → all_chars is_read s ≡ true
      → (b : Bool) × (validate_inn_12 s ≡ ok b)
  unfolding validate_inn_12 second_digit
  validate_inn_12_total s h r =
      let (a, ha) = control_sum_total coefficients_1 s (omega arith) r in
      let (b, hb) = control_sum_total coefficients_2 s (omega arith) r in
      let (d, hd) = int_at_total s 10 (omega arith) r in
      let (e, he) = int_at_total s 11 (omega arith) r in
      (second_digit (control_digit a == d) b e, rw (ha, hb, hd, he) (ground arith))

  -- If `int` reads every character that is left without spaces and hyphens, the call returns or
  -- raises `ValidationError`; no other exception escapes.
  pub no_crash :
      (value : String)
      → all_chars is_read (strip_separators value) ≡ true
      → IsHandled (validate_tax_number value)
  unfolding validate_tax_number
  no_crash value r = ground (
    arith,
    validate_inn_10_total (strip_separators value),
    validate_inn_12_total (strip_separators value),
  )

  unread_sum :
      (ks : List ℕ) (s : String) (i : ℕ) (c : Char)
      → i < length ks
      → char_at s i ≡ some c
      → is_read c ≡ false
      → length ks ≤ len s
      → control_sum ks s ≡ err value_error
  unfolding control_sum
  unread_sum [] s i c h e r l = absurd (omega arith)
  unread_sum (k ∷ ks) String.[] i c h e r l = absurd (omega arith)
  unread_sum (k ∷ ks) (String.◌∷◌ x s) zero c h e r l = ground arith
  unread_sum (k ∷ ks) (String.◌∷◌ x s) (suc i) c h e r l =
      ground (arith, unread_sum ks s i c (omega arith) e r (omega arith))

  -- A character that `isdigit` takes and `int` does not read, such as a superscript digit, among
  -- the first nine of ten makes the call raise `ValueError`, which the caller does not catch.
  pub superscript_crashes :
      (value : String) (i : ℕ) (c : Char)
      → isdigit (strip_separators value) ≡ true
      → is_empty value ≡ false
      → len (strip_separators value) ≡ 10
      → i < 9
      → char_at (strip_separators value) i ≡ some c
      → is_read c ≡ false
      → validate_tax_number value ≡ err value_error
  unfolding validate_tax_number validate_inn_10
  superscript_crashes value i c d ne l h e r =
      let crash = unread_sum coefficients (strip_separators value) i c h e r (omega arith) in
      ground (arith, crash)
