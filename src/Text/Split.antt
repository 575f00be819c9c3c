-- ===== src/Text/Split.antt =====
-- `str.strip`, `str.split` and `in` on texts.
use Prim.Native.String.{[], ◌∷◌}
use python_diplom.Base.{
  ℕ, Char, code, String, Bool, true, false, ◌&&◌, ◌||◌, Option, none, some, ◌==◌, if◌then◌else◌,
}
use python_diplom.Base.{List}
use python_diplom.Text.{Unicode, is_empty}

abbrev pub starts_with : String → String → Bool
starts_with [] s = true
starts_with (c ∷ w) [] = false
starts_with (c ∷ w) (d ∷ s) = (code c == code d) && starts_with w s

-- `word in s`
abbrev pub contains : String → String → Bool
contains w [] = is_empty w
contains w (c ∷ s) = starts_with w (c ∷ s) || contains w s

-- The part before the first `sep`, and the part after it if there is one.
abbrev pub cut : ℕ → String → String × Option String
cut sep [] = ([], none)
cut sep (c ∷ s) =
    let (front, back) = cut sep s in if code c == sep then ([], some s) else (c ∷ front, back)

-- `s.split(sep)`, for a separator of one character
abbrev pub put_front : Char → List String → List String
put_front c List.[] = List.◌∷◌ (c ∷ []) List.[]
put_front c (List.◌∷◌ w ws) = List.◌∷◌ (c ∷ w) ws

abbrev pub split_on : ℕ → String → List String
split_on sep [] = List.◌∷◌ [] List.[]
split_on sep (c ∷ s) =
    let rest = split_on sep s in if code c == sep then List.◌∷◌ [] rest else put_front c rest

module _ ⦃u : Unicode⦄ where
  abbrev pub strip_left : String → String
  strip_left [] = []
  strip_left (c ∷ s) = let rest = strip_left s in if u.is_space c then rest else c ∷ s

  abbrev pub strip_right : String → String
  strip_right [] = []
  strip_right (c ∷ s) =
      let rest = strip_right s in if is_empty rest && u.is_space c then [] else c ∷ rest

  -- `s.strip()`
  abbrev pub strip : String → String
  strip s = strip_right (strip_left s)
