-- ===== src/Characteristics/Parsing.antt =====
-- The text form of the characteristics, `name:value;name:value`, written and read back.
use Prim.Native.String.append
use Prim.Native.String.{[], ◌∷◌}
use Prim.Native.String
use python_diplom.Base.{
  ℕ, Char, code, String, Bool, true, false, not, List, map, All, ◌==◌, ◌≡◌, refl, arith, some,
}
use python_diplom.Text.{Unicode, is_empty, all_chars}
use python_diplom.Text.Split.{cut, split_on, strip}
use python_diplom.Python.{Python, Value, text}
use python_diplom.Characteristics.{attribute_pairs, text_pairs, text_pair}

-- The character does not occur in the text.
abbrev pub lacks : ℕ → String → Bool
lacks sep s = all_chars (λ c. not (code c == sep)) s

split_on-lacks : (sep : ℕ) (s : String) → lacks sep s ≡ true → split_on sep s ≡ List.◌∷◌ s List.[]
split_on-lacks sep [] h = refl
split_on-lacks sep (c ∷ s) h = ground (arith, split_on-lacks sep s)

split_on-append :
    (sep : ℕ) (a : String) (c : Char) (b : String)
    → lacks sep a ≡ true
    → code c ≡ sep
    → split_on sep (String.◌++◌ a (c ∷ b)) ≡ List.◌∷◌ a (split_on sep b)
split_on-append sep [] c b h e = rw (append.nil (c ∷ b)) (ground (arith, e))
split_on-append sep (d ∷ a) c b h e =
    rw (append.cons d a (c ∷ b)) (ground (arith, split_on-append sep a c b))

cut-append :
    (sep : ℕ) (a : String) (c : Char) (b : String)
    → lacks sep a ≡ true
    → code c ≡ sep
    → cut sep (String.◌++◌ a (c ∷ b)) ≡ (a, some b)
cut-append sep [] c b h e = rw (append.nil (c ∷ b)) (ground (arith, e))
cut-append sep (d ∷ a) c b h e = rw (append.cons d a (c ∷ b)) (ground (arith, cut-append sep a c b))

lacks-append :
    (sep : ℕ) (a b : String)
    → lacks sep a ≡ true
    → lacks sep b ≡ true
    → lacks sep (String.◌++◌ a b) ≡ true
lacks-append sep [] b h k = rw (append.nil b) k
lacks-append sep (c ∷ a) b h k = rw (append.cons c a b) (ground (arith, lacks-append sep a b))

-- A name and a value that the text form can hold.
pub record IsWritable ⦃u : Unicode⦄ (pair : String × String) : Type 0 where
  pub name_plain : lacks b':' pair.0 ≡ true
  pub name_whole : lacks b';' pair.0 ≡ true
  pub value_whole : lacks b';' pair.1 ≡ true
  pub name_stripped : strip pair.0 ≡ pair.0
  pub value_stripped : strip pair.1 ≡ pair.1
  pub name_given : is_empty pair.0 ≡ false
  pub value_given : is_empty pair.1 ≡ false

abbrev pub written_pair : String × String → String
written_pair (name, value) = String.◌++◌ name (":" ∷ value)

abbrev pub written : List (String × String) → String
written List.[] = []
written (List.◌∷◌ pair List.[]) = written_pair pair
written (List.◌∷◌ pair (List.◌∷◌ next rest)) =
    String.◌++◌ (written_pair pair) (";" ∷ written (List.◌∷◌ next rest))

module _ ⦃u : Unicode⦄ where
  abbrev pub as_values : List (String × String) → List (Value × String)
  as_values = map (λ pair. (text pair.0, pair.1))

  written_pair-whole :
      (pair : String × String) → IsWritable pair → lacks b';' (written_pair pair) ≡ true
  written_pair-whole (name, value) w =
      lacks-append b';' name (":" ∷ value) w.name_whole (ground (arith, w.value_whole))

  read_pair :
      (pair : String × String) (rest : List (Value × String))
      → IsWritable pair
      → text_pair (cut b':' (written_pair pair)) rest ≡ List.◌∷◌ (text pair.0, pair.1) rest
  read_pair (name, value) rest w =
      rw
        (
          cut-append b':' name ":" value w.name_plain refl,
          w.name_stripped,
          w.value_stripped,
          w.name_given,
          w.value_given,
        )
        refl

  text_pairs-written :
      (pairs : List (String × String))
      → All IsWritable pairs
      → text_pairs (split_on b';' (written pairs)) ≡ as_values pairs
  text_pairs-written List.[] h = refl
  text_pairs-written (List.◌∷◌ pair List.[]) h =
      rw (split_on-lacks b';' (written_pair pair) (written_pair-whole pair h.0))
        (read_pair pair List.[] h.0)
  text_pairs-written (List.◌∷◌ pair (List.◌∷◌ next rest)) h =
      rw
        (split_on-append b';' (written_pair pair) ";" (written (List.◌∷◌ next rest))
          (written_pair-whole pair h.0) refl)
        (rw (text_pairs-written (List.◌∷◌ next rest) h.1)
          (read_pair pair (as_values (List.◌∷◌ next rest)) h.0))

  -- Characteristics written as `name:value;name:value` are read back as they were, if names and
  -- values are not empty and have no space around them, no name holds a colon and neither holds a
  -- semicolon.
  pub attribute_pairs-written :
      ⦃py : Python⦄
      → (pairs : List (String × String)) → All IsWritable pairs
      → attribute_pairs (text (written pairs)) ≡ as_values pairs
  unfolding attribute_pairs
  attribute_pairs-written pairs h = text_pairs-written pairs h
