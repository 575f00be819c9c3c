-- ===== src/Examples/TaxNumbers.antt =====
-- Examples for the theorems on tax numbers.
use python_diplom.Base.{◌≡◌, refl, ◌↔◌, true, false, String, arith, some}
use python_diplom.Exn.{ok}
use python_diplom.Text.{len, all_chars, char_at}
use python_diplom.TaxNumber.{
  strip_separators, control_sum, validate_inn_10, validate_tax_number, clean, isdigit,
}
use python_diplom.TaxNumber.Checksum.{wrong_check_digit}
use python_diplom.TaxNumber.Acceptance.{IsInn, accepts_iff, clean-accepted}
use python_diplom.TaxNumber.Errors.{is_read}
use python_diplom.Examples.{ascii}

accepts_iff_example :
    (validate_tax_number "77-07 083893" ≡ ok "7707083893")
    ↔ (("7707083893" ≡ strip_separators "77-07 083893") × IsInn "7707083893")
accepts_iff_example = accepts_iff "77-07 083893" "7707083893" refl

accepted : validate_tax_number "77-07 083893" ≡ ok "7707083893"
unfolding validate_tax_number validate_inn_10 control_sum strip_separators
accepted = refl

clean-accepted_example : clean "7707083893" ≡ ok tt
clean-accepted_example = clean-accepted "77-07 083893" "7707083893" accepted

passes : validate_inn_10 "7707083893" ≡ ok true
unfolding validate_inn_10 control_sum
passes = refl

wrong_check_digit_example : validate_inn_10 "7707083894" ≡ ok false
wrong_check_digit_example =
    wrong_check_digit "7707083893" "4" 3 4 refl refl (λ e. omega (arith, e)) passes

zeros : validate_inn_10 "0000000000" ≡ ok true
unfolding validate_inn_10 control_sum
zeros = refl

five : validate_inn_10 "5000000000" ≡ ok true
unfolding validate_inn_10 control_sum
five = refl

digits_read : all_chars is_read (strip_separators "77-07") ≡ true
unfolding strip_separators
digits_read = refl

abbrev superscript : String
superscript = "77070838²3"

is_digits : isdigit (strip_separators superscript) ≡ true
unfolding strip_separators
is_digits = refl

has_ten : len (strip_separators superscript) ≡ 10
unfolding strip_separators
has_ten = refl

ninth : char_at (strip_separators superscript) 8 ≡ some "²"
unfolding strip_separators
ninth = refl
