-- ===== src/TaxNumber/CheckDigits.antt =====
-- The check digits of a tax number, described by the weights that the tax service publishes.
use python_diplom.Base.{
  ℕ, zero, suc, String, Bool, Bool-cases, ◌&&◌, ◌+◌, ◌*◌, ◌%◌, ◌<◌, ◌≡◌, ◌≢◌, refl, sym, ap, ◌∙◌,
  Option, none, some, List, [], ◌∷◌, length, true, ==_iff, Option-cases, inl, inr, ◌↔◌, arith, ◌==◌,
}
use python_diplom.Exn.{ok, ok-injective, >>=-eq-ok}
use python_diplom.Text.{Unicode, len}
use python_diplom.TaxNumber.{
  coefficients, coefficients_1, coefficients_2, control_sum, control_digit, int_of, int_at,
  validate_inn_10, validate_inn_12,
}

-- The sum of the digits, each times its weight.
abbrev pub weighed : List ℕ → List ℕ → ℕ
weighed [] ds = 0
weighed (w ∷ ws) [] = 0
weighed (w ∷ ws) (d ∷ ds) = w * d + weighed ws ds

-- The digit at an index.
abbrev pub nth : List ℕ → ℕ → ℕ
nth [] i = 0
nth (d ∷ ds) zero = d
nth (d ∷ ds) (suc i) = nth ds i

-- Ten digits of an organisation: the last is the weighed sum of those before it, modulo 11 and 10.
abbrev pub IsInn10 : List ℕ → Type 0
IsInn10 ds =
    (length ds ≡ 10) × (weighed (2 ∷ 4 ∷ 10 ∷ 3 ∷ 5 ∷ 9 ∷ 4 ∷ 6 ∷ 8 ∷ []) ds % 11 % 10 ≡ nth ds 9)

-- Twelve digits of a person: the last two are such sums.
abbrev pub IsInn12 : List ℕ → Type 0
IsInn12 ds =
    (length ds ≡ 12)
    × (weighed (7 ∷ 2 ∷ 4 ∷ 10 ∷ 3 ∷ 5 ∷ 9 ∷ 4 ∷ 6 ∷ 8 ∷ []) ds % 11 % 10 ≡ nth ds 10)
    × (weighed (3 ∷ 7 ∷ 2 ∷ 4 ∷ 10 ∷ 3 ∷ 5 ∷ 9 ∷ 4 ∷ 6 ∷ 8 ∷ []) ds % 11 % 10 ≡ nth ds 11)

and_true-front : (b c : Bool) → b && c ≡ true → b ≡ true
and_true-front b c h = ground arith

and_true-back : (b c : Bool) → b && c ≡ true → c ≡ true
and_true-back b c h = ground arith

module _ ⦃u : Unicode⦄ where
  -- What the characters of a text stand for, if each is a decimal digit.
  abbrev pub joined : Option ℕ → Option (List ℕ) → Option (List ℕ)
  joined (some d) (some ds) = some (d ∷ ds)
  joined _ _ = none

  abbrev pub digits : String → Option (List ℕ)
  digits String.[] = some []
  digits (String.◌∷◌ c s) = joined (u.digit_value c) (digits s)

  pub len-digits : (s : String) (ds : List ℕ) → digits s ≡ some ds → length ds ≡ len s
  len-digits String.[] ds h = ground arith
  len-digits (String.◌∷◌ c s) [] h = ground arith
  len-digits (String.◌∷◌ c s) (d ∷ ds) h = ground (arith, len-digits s ds)

  control_sum-digits :
      (ks ds : List ℕ) (s : String)
      → digits s ≡ some ds
      → length ks < suc (length ds)
      → control_sum ks s ≡ ok (weighed ks ds)
  unfolding control_sum
  control_sum-digits [] ds s h l = refl
  control_sum-digits (k ∷ ks) [] s h l = absurd (omega arith)
  control_sum-digits (k ∷ ks) (d ∷ ds) String.[] h l = ground arith
  control_sum-digits (k ∷ ks) (d ∷ ds) (String.◌∷◌ c s) h l =
      ground (arith, control_sum-digits ks ds s)

  int_at-digits :
      (ds : List ℕ) (s : String) (i : ℕ)
      → digits s ≡ some ds
      → i < length ds
      → int_at s i ≡ ok (nth ds i)
  int_at-digits [] s i h l = absurd (omega arith)
  int_at-digits (d ∷ ds) String.[] i h l = ground arith
  int_at-digits (d ∷ ds) (String.◌∷◌ c s) zero h l = ground arith
  int_at-digits (d ∷ ds) (String.◌∷◌ c s) (suc i) h l = ground (arith, int_at-digits ds s i)

  -- If the sum over all characters but the last can be computed, and the last can be read, then
  -- all are digits.
  all_read :
      (ks : List ℕ) (s : String) (a d : ℕ)
      → len s ≡ suc (length ks)
      → control_sum ks s ≡ ok a
      → int_at s (length ks) ≡ ok d
      → digits s ≢ none
  unfolding control_sum
  all_read ks String.[] a d l h i = ground arith
  all_read [] (String.◌∷◌ c String.[]) a d l h i = ground arith
  all_read [] (String.◌∷◌ c (String.◌∷◌ c' s)) a d l h i = absurd (omega arith)
  all_read (k ∷ ks) (String.◌∷◌ c s) a d l h i =
      let (d₀, h₀, h') = >>=-eq-ok (int_of c) _ h in
      let (a₀, h₁, h'') = >>=-eq-ok (control_sum ks s) _ h' in
      ground (arith, all_read ks s a₀ d (omega (l, arith)) h₁ i)

  checked_10 :
      (s : String) (ds : List ℕ)
      → digits s ≡ some ds
      → length ds ≡ 10
      → validate_inn_10 s ≡ ok (weighed coefficients ds % 11 % 10 == nth ds 9)
  unfolding validate_inn_10
  checked_10 s ds h l =
      rw
        (
          control_sum-digits coefficients ds s h (omega (l, arith)),
          int_at-digits ds s 9 h (omega (l, arith)),
        )
        refl

  checked_12 :
      (s : String) (ds : List ℕ)
      → digits s ≡ some ds
      → length ds ≡ 12
      → validate_inn_12 s
        ≡ ok (
            (weighed coefficients_1 ds % 11 % 10 == nth ds 10)
            && (weighed coefficients_2 ds % 11 % 10 == nth ds 11))
  unfolding validate_inn_12
  checked_12 s ds h l = elim (Bool-cases (weighed coefficients_1 ds % 11 % 10 == nth ds 10)) [
    | inl e ↦
        rw
          (
            control_sum-digits coefficients_1 ds s h (omega (l, arith)),
            control_sum-digits coefficients_2 ds s h (omega (l, arith)),
            int_at-digits ds s 10 h (omega (l, arith)),
            int_at-digits ds s 11 h (omega (l, arith)),
            e,
          )
          refl
    | inr e ↦
        rw
          (
            control_sum-digits coefficients_1 ds s h (omega (l, arith)),
            control_sum-digits coefficients_2 ds s h (omega (l, arith)),
            int_at-digits ds s 10 h (omega (l, arith)),
            e,
          )
          refl
  ]

  read_10 : (s : String) → len s ≡ 10 → validate_inn_10 s ≡ ok true → digits s ≢ none
  unfolding validate_inn_10
  read_10 s l h =
      let (a, h₁, h₂) = >>=-eq-ok (control_sum coefficients s) _ h in
      let (d, h₃, h₄) = >>=-eq-ok (int_at s 9) _ h₂ in all_read coefficients s a d l h₁ h₃

  read_12 : (s : String) → len s ≡ 12 → validate_inn_12 s ≡ ok true → digits s ≢ none
  unfolding validate_inn_12
  read_12 s l h =
      let (a, h₁, h₂) = >>=-eq-ok (control_sum coefficients_1 s) _ h in
      let (b, h₃, h₄) = >>=-eq-ok (control_sum coefficients_2 s) _ h₂ in
      let (d, h₅, h₆) = >>=-eq-ok (int_at s 10) _ h₄ in
      elim (Bool-cases (control_digit a == d)) [
        | inr e ↦ absurd (ground (arith, rw e at h₆))
        | inl e ↦
            let (d', h₇, h₈) = >>=-eq-ok (int_at s 11) _ (rw e at h₆) in
            all_read coefficients_2 s b d' l h₃ h₇
      ]

  -- The check of ten characters, by the digits that they are.
  pub validate_inn_10_iff :
      (s : String)
      → len s ≡ 10
      → ((validate_inn_10 s ≡ ok true) ↔ ((ds : List ℕ) × (digits s ≡ some ds) × IsInn10 ds))
  validate_inn_10_iff s l = (
    λ h. elim (Option-cases (digits s)) [
      | inl none_read ↦ absurd (read_10 s l h none_read)
      | inr (ds, e) ↦
          let n : length ds ≡ 10 = len-digits s ds e ∙ l in
          (ds, e, (n, (==_iff _ _).0 (ok-injective (sym (checked_10 s ds e n) ∙ h))))
    ],
    λ (ds, e, (n, w)). checked_10 s ds e n ∙ ap ok ((==_iff _ _).1 w),
  )

  -- The check of twelve characters, by the digits that they are.
  pub validate_inn_12_iff :
      (s : String)
      → len s ≡ 12
      → ((validate_inn_12 s ≡ ok true) ↔ ((ds : List ℕ) × (digits s ≡ some ds) × IsInn12 ds))
  validate_inn_12_iff s l = (
    λ h. elim (Option-cases (digits s)) [
      | inl none_read ↦ absurd (read_12 s l h none_read)
      | inr (ds, e) ↦
          let n : length ds ≡ 12 = len-digits s ds e ∙ l in
          let both = ok-injective (sym (checked_12 s ds e n) ∙ h) in
          (
            ds,
            e,
            (n, (==_iff _ _).0 (and_true-front _ _ both), (==_iff _ _).0 (and_true-back _ _ both)),
          )
    ],
    λ (ds, e, (n, v, w)).
        checked_12 s ds e n ∙ ap ok (rw ((==_iff _ _).1 v, (==_iff _ _).1 w) refl),
  )
