-- ===== src/TaxNumber/Checksum.antt =====
-- What the two check digits detect.
use python_diplom.Base.{
  ℕ, zero, suc, ◌+◌, ◌*◌, ◌%◌, ◌≤◌, ◌<◌, Char, String, ◌≡◌, ◌≢◌, refl, ap, ◌∙◌, ◌⊎◌, true, false,
  length, List, [], ◌∷◌, some, arith,
}
use python_diplom.Exn.{ok, index_error, or_raise, >>=-eq-ok}
use python_diplom.Text.{Unicode, char_at, set_char}
use python_diplom.TaxNumber.{
  coefficients, control_sum, control_digit, int_of, int_at, validate_inn_10,
}

-- The coefficient of the i-th digit.
abbrev pub weight : List ℕ → ℕ → ℕ
weight [] i = 0
weight (k ∷ ks) zero = k
weight (k ∷ ks) (suc i) = weight ks i

module _ ⦃u : Unicode⦄ where
  int_of-value : (c : Char) (d : ℕ) → int_of c ≡ ok d → u.digit_value c ≡ some d
  int_of-value c d h = ground arith

  int_of-lt : (c : Char) (d : ℕ) → int_of c ≡ ok d → d < 10
  int_of-lt c d h = u.digit_value_lt c d (int_of-value c d h)

  -- Replacing one digit moves the sum by its coefficient times the difference.
  control_sum-set_char :
      (ks : List ℕ) (s : String) (i : ℕ) (c' : Char) (a b d e : ℕ)
      → control_sum ks s ≡ ok a
      → control_sum ks (set_char s i c') ≡ ok b
      → int_at s i ≡ ok d
      → int_of c' ≡ ok e
      → a + weight ks i * e ≡ b + weight ks i * d
  unfolding control_sum
  control_sum-set_char [] s i c' a b d e ha hb hd he = ground arith
  control_sum-set_char (k ∷ ks) String.[] i c' a b d e ha hb hd he = ground arith
  control_sum-set_char (k ∷ ks) (String.◌∷◌ c s) zero c' a b d e ha hb hd he = ground arith
  control_sum-set_char (k ∷ ks) (String.◌∷◌ c s) (suc i) c' a b d e ha hb hd he =
      let (d₀, h₀, ha') = >>=-eq-ok (int_of c) _ ha in
      let (a₀, h₁, ha'') = >>=-eq-ok (control_sum ks s) _ ha' in
      let (d₁, h₂, hb') = >>=-eq-ok (int_of c) _ hb in
      let (b₀, h₃, hb'') = >>=-eq-ok (control_sum ks (set_char s i c')) _ hb' in
      ground (arith, control_sum-set_char ks s i c' a₀ b₀ d e h₁ h₃ hd he)

  -- A digit past the coefficients does not enter the sum.
  control_sum-set_beyond :
      (ks : List ℕ) (s : String) (i : ℕ) (c' : Char)
      → length ks ≤ i
      → control_sum ks (set_char s i c') ≡ control_sum ks s
  unfolding control_sum
  control_sum-set_beyond [] s i c' h = refl
  control_sum-set_beyond (k ∷ ks) String.[] i c' h = refl
  control_sum-set_beyond (k ∷ ks) (String.◌∷◌ c s) zero c' h = absurd (omega arith)
  control_sum-set_beyond (k ∷ ks) (String.◌∷◌ c s) (suc i) c' h =
      rw (control_sum-set_beyond ks s i c' (omega arith))

  char_at-set_char_ne :
      (s : String) (i j : ℕ) (c' : Char) → i ≢ j → char_at (set_char s i c') j ≡ char_at s j
  char_at-set_char_ne String.[] i j c' h = refl
  char_at-set_char_ne (String.◌∷◌ c s) zero zero c' h = absurd (h refl)
  char_at-set_char_ne (String.◌∷◌ c s) zero (suc j) c' h = refl
  char_at-set_char_ne (String.◌∷◌ c s) (suc i) zero c' h = refl
  char_at-set_char_ne (String.◌∷◌ c s) (suc i) (suc j) c' h =
      char_at-set_char_ne s i j c' (λ e. h (ap suc e))

  char_at-set_char_self :
      (s : String) (i : ℕ) (c c' : Char)
      → char_at s i ≡ some c
      → char_at (set_char s i c') i ≡ some c'
  char_at-set_char_self String.[] i c c' h = ground arith
  char_at-set_char_self (String.◌∷◌ x s) zero c c' h = refl
  char_at-set_char_self (String.◌∷◌ x s) (suc i) c c' h = char_at-set_char_self s i c c' h

  int_at-set_char_ne :
      (s : String) (i j : ℕ) (c' : Char) → i ≢ j → int_at (set_char s i c') j ≡ int_at s j
  int_at-set_char_ne s i j c' h = rw (char_at-set_char_ne s i j c' h)

  int_at-set_char_self :
      (s : String) (i : ℕ) (c' : Char) (d : ℕ)
      → int_at s i ≡ ok d
      → int_at (set_char s i c') i ≡ int_of c'
  int_at-set_char_self s i c' d h =
      let (c, hc, _) = >>=-eq-ok (or_raise (char_at s i) index_error) _ h in
      rw (char_at-set_char_self s i c c' (ground arith))

  int_at-lt : (s : String) (i d : ℕ) → int_at s i ≡ ok d → d < 10
  int_at-lt s i d h =
      let (c, _, hc) = >>=-eq-ok (or_raise (char_at s i) index_error) _ h in int_of-lt c d hc

  -- Two sums that differ by one digit of the first nine are not congruent.
  residues_differ :
      (i a b d e : ℕ)
      → i < 9
      → d < 10
      → e < 10
      → d ≢ e
      → a + weight coefficients i * e ≡ b + weight coefficients i * d
      → a % 11 ≢ b % 11
  residues_differ zero a b d e hi hd he ne h = omega arith
  residues_differ (suc zero) a b d e hi hd he ne h = omega arith
  residues_differ (suc (suc zero)) a b d e hi hd he ne h = omega arith
  residues_differ (suc (suc (suc zero))) a b d e hi hd he ne h = omega arith
  residues_differ (suc (suc (suc (suc zero)))) a b d e hi hd he ne h = omega arith
  residues_differ (suc (suc (suc (suc (suc zero))))) a b d e hi hd he ne h = omega arith
  residues_differ (suc (suc (suc (suc (suc (suc zero)))))) a b d e hi hd he ne h = omega arith
  residues_differ (suc (suc (suc (suc (suc (suc (suc zero))))))) a b d e hi hd he ne h = omega arith
  residues_differ (suc (suc (suc (suc (suc (suc (suc (suc zero)))))))) a b d e hi hd he ne h =
      omega arith
  residues_differ (suc (suc (suc (suc (suc (suc (suc (suc (suc i))))))))) a b d e hi hd he ne h =
      absurd (omega arith)

  residue_cases :
      (a b l : ℕ)
      → control_digit a ≡ l
      → control_digit b ≡ l
      → a % 11 ≢ b % 11
      → ((a % 11 ≡ 0) × (b % 11 ≡ 10) ⊎ (a % 11 ≡ 10) × (b % 11 ≡ 0))
  residue_cases a b l ha hb ne = omega arith

  -- A text passes `validate_inn_10` exactly if its sum and its tenth digit exist and agree.
  pub inn_10_inversion :
      (s : String)
      → validate_inn_10 s ≡ ok true
      → (a : ℕ) × (l : ℕ) × (control_sum coefficients s ≡ ok a)
        × (int_at s 9 ≡ ok l)
        × (control_digit a ≡ l)
  unfolding validate_inn_10
  inn_10_inversion s h =
      let (a, ha, h') = >>=-eq-ok (control_sum coefficients s) _ h in
      let (l, hl, h'') = >>=-eq-ok (int_at s 9) _ h' in (a, l, ha, hl, ground arith)

  -- When a text passes, and still passes after one of its first nine digits is replaced by another
  -- digit, one of the two has the weighted sum 0 modulo 11 and the other 10: only that confusion
  -- escapes the check.
  pub single_error_escape :
      (s : String) (i : ℕ) (c' : Char) (d e : ℕ)
      → i < 9
      → int_at s i ≡ ok d
      → int_of c' ≡ ok e
      → d ≢ e
      → validate_inn_10 s ≡ ok true
      → validate_inn_10 (set_char s i c') ≡ ok true
      → (a : ℕ) × (b : ℕ) × (control_sum coefficients s ≡ ok a)
        × (control_sum coefficients (set_char s i c') ≡ ok b)
        × ((a % 11 ≡ 0) × (b % 11 ≡ 10) ⊎ (a % 11 ≡ 10) × (b % 11 ≡ 0))
  single_error_escape s i c' d e hi hd he ne hs ht =
      let (a, l, ha, hl, ea) = inn_10_inversion s hs in
      let (b, m, hb, hm, eb) = inn_10_inversion (set_char s i c') ht in
      let moved = control_sum-set_char coefficients s i c' a b d e ha hb hd he in
      let same : int_at (set_char s i c') 9 ≡ ok l =
        int_at-set_char_ne s i 9 c' (omega arith) ∙ hl in
      let l-eq-m : m ≡ l = ground (arith, hm, same) in
      (
        a,
        b,
        ha,
        hb,
        residue_cases a b l ea (eb ∙ l-eq-m)
            (residues_differ i a b d e hi (int_at-lt s i d hd) (int_of-lt c' e he) ne moved),
      )

  -- When a text passes and its tenth digit is replaced by another digit, it fails.
  pub wrong_check_digit :
      (s : String) (c' : Char) (d e : ℕ)
      → int_at s 9 ≡ ok d
      → int_of c' ≡ ok e
      → d ≢ e
      → validate_inn_10 s ≡ ok true
      → validate_inn_10 (set_char s 9 c') ≡ ok false
  unfolding validate_inn_10
  wrong_check_digit s c' d e hd he ne hs =
      let (a, l, ha, hl, ea) = inn_10_inversion s hs in
      rw (control_sum-set_beyond coefficients s 9 c' (omega arith))
        (rw (int_at-set_char_self s 9 c' d hd) (ground (arith, ha, he, hl, hd, ea)))
