-- ===== src/Examples/Values.antt =====
-- What Python does with values, for the examples: one text is a decimal number, and one is a whole number.
use python_diplom.Base.{
  ltb, String, ◌≡◌, refl, sym, true, false, Bool, Bool-cases, inl, inr, str_eq, if◌then◌else◌,
}
use python_diplom.Base.Int.{ℤ, pos, negsuc}
use python_diplom.Exn.{Exn, Result, ok, err, value_error, type_error, invalid_operation, err-ne-ok}
use python_diplom.Text.{show}
use python_diplom.Python.{Python, Value, whole, real, text}
use python_diplom.Examples.{ascii}

abbrev text_of : Value → String
text_of (text s) = s
text_of (real s) = s
text_of (whole (pos n)) = show n
text_of _ = "?"

abbrev number_of : Value → Result ℤ
number_of (whole n) = ok n
number_of (text s) = if str_eq s "40" then ok (pos 40) else err value_error
number_of _ = err type_error

-- A `Decimal` that reads one text.
abbrev amount_of : String → Result ℤ
amount_of s = if str_eq s "3.00" then ok (pos 300) else err invalid_operation

err-injective : {x y : Exn} → ◌≡◌ {A = Result ℤ} (err x) (err y) → x ≡ y
err-injective h = cc

pub amount_of-raises : (s : String) (e : Exn) → amount_of s ≡ err e → e ≡ invalid_operation
amount_of-raises s e h = elim (Bool-cases (str_eq s "3.00")) [
  | inl b ↦ absurd (err-ne-ok (sym (rw b at h)))
  | inr b ↦ err-injective (sym (rw b at h))
]

abbrev is_below : ℤ → Bool
is_below (pos n) = false
is_below (negsuc n) = true

abbrev is_above : ℤ → Bool
is_above (pos n) = ltb 0 n
is_above (negsuc n) = false

instance abbrev pub toy_python : Python
toy_python = record {
  Decimal = ℤ;
  str = text_of;
  int = number_of;
  is_zero = λ s. str_eq s "0.0";
  decimal = amount_of;
  is_negative = λ d. ok (is_below d);
  is_positive = λ d. ok (is_above d);
  column = λ d. ok d;
  exn_text = λ e. "";
  str_text = λ s. refl;
  decimal-raises = amount_of-raises;
}
