-- ===== src/Text.antt =====
-- Python's `str`: what the code does with single characters and whole texts.
pub mod Split
use Prim.Native.String.{[], ◌∷◌}
use Prim.Native.String
use python_diplom.Base.{
  ℕ, zero, suc, ◌/◌, ◌%◌, ◌<◌, Char, code, String, ◌≡◌, refl, arith, ◌∙◌, inl, inr, Option-cases,
  Bool, true, false, not, ◌&&◌, ◌||◌, Option, none, some, ◌==◌, ltb, if◌then◌else◌, str_eq, ◌-◌,
}

-- The tables of the Unicode database behind `\s`, `str.isdigit`, `int`, `str.lower` and `str.upper`. `int` of a one-character
-- text fails on some digits, such as a superscript.
pub record Unicode : Type 0 where
  pub is_space : Char → Bool
  pub is_digit : Char → Bool
  pub digit_value : Char → Option ℕ
  -- `str.lower` and `str.upper`; an empty text and a full stop have no case
  pub lower : String → String
  pub upper : String → String
  pub digit-not_space : (c : Char) → is_digit c ≡ true → is_space c ≡ false
  pub digit-not_hyphen : (c : Char) → is_digit c ≡ true → (code c == b'-') ≡ false
  pub lower_empty : lower "" ≡ ""
  pub lower_dot : (c : Char) (s : String) → code c ≡ b'.' → lower (c ∷ s) ≡ c ∷ lower s
  pub digit_value_lt : (c : Char) (d : ℕ) → digit_value c ≡ some d → d < 10

-- `not value` on a text.
abbrev pub is_empty : String → Bool
is_empty [] = true
is_empty (c ∷ s) = false

-- `len(value)`
abbrev pub len : String → ℕ
len [] = 0
len (c ∷ s) = suc (len s)

-- `value[i]`; `none` is `IndexError`.
abbrev pub char_at : String → ℕ → Option Char
char_at [] i = none
char_at (c ∷ s) zero = some c
char_at (c ∷ s) (suc i) = char_at s i

-- `value` with its i-th character replaced.
abbrev pub set_char : String → ℕ → Char → String
set_char [] i d = []
set_char (c ∷ s) zero d = d ∷ s
set_char (c ∷ s) (suc i) d = c ∷ set_char s i d

abbrev pub all_chars : (Char → Bool) → String → Bool
all_chars p [] = true
all_chars p (c ∷ s) = p c && all_chars p s

abbrev pub any_char : (Char → Bool) → String → Bool
any_char p [] = false
any_char p (c ∷ s) = p c || any_char p s

-- `value in options`
abbrev pub one_of : String → String → String → Bool
one_of s a b = str_eq s a || str_eq s b

digit_text : ℕ → String
digit_text zero = "0"
digit_text (suc zero) = "1"
digit_text (suc (suc zero)) = "2"
digit_text (suc (suc (suc zero))) = "3"
digit_text (suc (suc (suc (suc zero)))) = "4"
digit_text (suc (suc (suc (suc (suc zero))))) = "5"
digit_text (suc (suc (suc (suc (suc (suc zero)))))) = "6"
digit_text (suc (suc (suc (suc (suc (suc (suc zero))))))) = "7"
digit_text (suc (suc (suc (suc (suc (suc (suc (suc zero)))))))) = "8"
digit_text _ = "9"

-- Fuel `n + 1` is enough, since each round divides by ten.
show_digits : ℕ → ℕ → String
show_digits zero n = ""
show_digits (suc f) n =
    let front = show_digits f (n / 10) in
    if ltb n 10 then digit_text n else String.◌++◌ front (digit_text (n % 10))

-- `str(n)` of a whole number
unfoldable pub show : ℕ → String
unfolding show_digits digit_text
show n = show_digits (suc n) n

show_test : show 4020 ≡ "4020"
unfolding show
show_test = refl

-- `os.path.splitext(name)[1]`: from the last full stop of the last path component on, if the
-- component has some other character before it. `seen` tells that it had one so far.
pub extension_from : Bool → String → Option String
extension_from seen [] = none
extension_from seen (c ∷ s) =
    let later = extension_from (if code c == b'/' then false else seen || not (code c == b'.')) s in
    elim later [
      | some e ↦ some e
      | none ↦
          if code c == b'.' && seen && not (any_char (λ d. code d == b'/') s)
          then some (c ∷ s)
          else none
    ]

unfoldable pub extension : String → String
unfolding extension_from
extension name = elim (extension_from false name) [ none ↦ "" | some e ↦ e ]

extension_test : extension "a.b/photo.tar.JPG" ≡ ".JPG"
unfolding extension
extension_test = refl

extension_hidden : extension "x.y/.png" ≡ ""
unfolding extension
extension_hidden = refl

-- `text[1:]`
abbrev pub drop_first : String → String
drop_first [] = []
drop_first (c ∷ s) = s

-- The extension is empty or begins with a full stop.
pub extension_from-dot :
    (seen : Bool) (name e : String)
    → extension_from seen name ≡ some e
    → (c : Char) × (s : String) × (e ≡ c ∷ s) × (code c ≡ b'.')
unfolding extension_from
extension_from-dot seen [] e h = absurd (ground arith)
extension_from-dot seen (c ∷ s) e h =
    let seen' = if code c == b'/' then false else seen || not (code c == b'.') in
    elim (Option-cases (extension_from seen' s)) [
      | inr (e', p) ↦ extension_from-dot seen' s e (p ∙ (rw (p, extension_from) at h))
      | inl p ↦ (c, s, ground (arith, p), ground (arith, p))
    ]

-- `os.path.basename(name)`
abbrev pub basename : String → String
basename [] = []
basename (c ∷ s) =
    let rest = basename s in if any_char (λ d. code d == b'/') (c ∷ s) then rest else c ∷ s

abbrev pub take_chars : ℕ → String → String
take_chars zero s = []
take_chars (suc n) [] = []
take_chars (suc n) (c ∷ s) = c ∷ take_chars n s

-- `os.path.splitext(name)[0]`
unfoldable pub stem : String → String
unfolding extension
stem name = take_chars (len name - len (extension name)) name

stem_test : stem (basename "a.b/photo.tar.JPG") ≡ "photo.tar"
unfolding stem
stem_test = refl
