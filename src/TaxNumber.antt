-- ===== src/TaxNumber.antt =====
-- The tax number (ИНН) of a supplier: `validate_tax_number`, `validate_inn_10` and
-- `validate_inn_12` of orders/backend/serializers.py, and `Supplier.clean` of
-- orders/backend/models.py, which calls the last two.
pub mod CheckDigits
pub mod Acceptance
pub mod Checksum
pub mod Errors
use Prim.Native.String
use python_diplom.Base.{
  ℕ, zero, suc, ◌+◌, ◌*◌, ◌%◌, Char, code, String, Bool, true, false, not, ◌&&◌, ◌||◌, List, [],
  ◌∷◌, ◌==◌, if◌then◌else◌,
}
use python_diplom.Exn.{
  Result, ok, err, validation_error, value_error, index_error, ◌>>=◌, ◌>>◌, require, or_raise,
}
use python_diplom.Text.{Unicode, is_empty, len, char_at, all_chars}

-- `coefficients` of `validate_inn_10`
abbrev pub coefficients : List ℕ
coefficients = 2 ∷ 4 ∷ 10 ∷ 3 ∷ 5 ∷ 9 ∷ 4 ∷ 6 ∷ 8 ∷ []

abbrev pub coefficients_1 : List ℕ
coefficients_1 = 7 ∷ 2 ∷ 4 ∷ 10 ∷ 3 ∷ 5 ∷ 9 ∷ 4 ∷ 6 ∷ 8 ∷ []

abbrev pub coefficients_2 : List ℕ
coefficients_2 = 3 ∷ 7 ∷ 2 ∷ 4 ∷ 10 ∷ 3 ∷ 5 ∷ 9 ∷ 4 ∷ 6 ∷ 8 ∷ []

module _ ⦃u : Unicode⦄ where
  -- `re.sub(r'[\s\-]', '', value)`
  unfoldable pub strip_separators : String → String
  strip_separators String.[] = String.[]
  strip_separators (String.◌∷◌ c s) =
      let rest = strip_separators s in
      if u.is_space c || (code c == b'-') then rest else String.◌∷◌ c rest

  -- `value.isdigit()`: false on the empty text
  abbrev pub isdigit : String → Bool
  isdigit s = not (is_empty s) && all_chars u.is_digit s

  -- `int(c)` of one character
  abbrev pub int_of : Char → Result ℕ
  int_of c = or_raise (u.digit_value c) value_error

  -- `int(inn[i])`
  abbrev pub int_at : String → ℕ → Result ℕ
  int_at s i = do c ← or_raise (char_at s i) index_error; int_of c

  -- `sum(int(inn[i]) * coefficients[i] for i in range(n))`, n the number of coefficients
  unfoldable pub control_sum : List ℕ → String → Result ℕ
  control_sum [] s = ok 0
  control_sum (k ∷ ks) String.[] = err index_error
  control_sum (k ∷ ks) (String.◌∷◌ c s) = do
    d ← int_of c
    rest ← control_sum ks s
    ok (d * k + rest)

  abbrev pub control_digit : ℕ → ℕ
  control_digit sum = sum % 11 % 10

  unfoldable pub validate_inn_10 : String → Result Bool
  unfolding control_sum
  validate_inn_10 inn = do
    sum ← control_sum coefficients inn
    last ← int_at inn 9
    ok (control_digit sum == last)

  -- The second comparison, `control_digit_2 == int(inn[11])`, is not reached if the first fails.
  pub validate_inn_12 : String → Result Bool
  unfolding control_sum
  validate_inn_12 inn = do
    sum_1 ← control_sum coefficients_1 inn
    sum_2 ← control_sum coefficients_2 inn
    d_1 ← int_at inn 10
    if control_digit sum_1 == d_1
        then (do d_2 ← int_at inn 11; ok (control_digit sum_2 == d_2))
        else ok false

  -- `if not validate_inn_…(cleaned): raise ValidationError(message)`, then `return cleaned`
  abbrev pub checked : Result Bool → String → String → Result String
  checked check message cleaned = do
    good ← check
    require good (validation_error "tax_number" message)
    ok cleaned

  unfoldable pub validate_tax_number : String → Result String
  unfolding strip_separators
  validate_tax_number value =
      let cleaned = strip_separators value in
      if is_empty value then ok value else (do
        require (isdigit cleaned)
            (validation_error "tax_number" "ИНН должен содержать только цифры")
        require (len cleaned == 10 || (len cleaned == 12)) (
            validation_error "tax_number"
              "ИНН должен содержать 10 цифр (для юр.лиц) или 12 цифр (для ИП)")
        if len cleaned == 10
            then checked (validate_inn_10 cleaned) "Неверная контрольная сумма ИНН (10 цифр)"
                cleaned
            else checked (validate_inn_12 cleaned) "Неверная контрольная сумма ИНН (12 цифр)"
                cleaned)

  -- `Supplier.clean`: the checks on `tax_number` before a profile is saved from a form
  pub clean : String → Result (Unit {0})
  unfolding strip_separators
  clean tax_number =
      let cleaned = strip_separators tax_number in
      if is_empty tax_number
      then ok tt
      else if len cleaned == 10
      then (do
        good ← validate_inn_10 cleaned
        require good (validation_error "tax_number" "Неверная контрольная сумма ИНН (10 цифр)"))
      else if len cleaned == 12
      then (do
        good ← validate_inn_12 cleaned
        require good (validation_error "tax_number" "Неверная контрольная сумма ИНН (12 цифр)"))
      else ok tt
