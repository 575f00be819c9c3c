-- ===== src/Media/Agreement.antt =====
-- The serializer and the model check an uploaded picture in two ways.
use Prim.Native.String.{◌∷◌}
use text.Mathlib.TextEquality.{Char-path}
use python_diplom.Base.{
  Char, code, String, ◌≡◌, refl, ◌↔◌, Bool, false, some, List, Option-cases, inl, inr, arith,
  str_eq, eq_iff, none,
}
use python_diplom.Exn.{ok}
use python_diplom.Text.{Unicode, extension, extension_from, extension_from-dot, drop_first}
use python_diplom.Media.{Upload, in_list, validate_image, clean_product}

str_eq-cons : (c : Char) (s t : String) → str_eq (c ∷ s) (c ∷ t) ≡ str_eq s t
str_eq-cons c s t = ground (arith, eq_iff (c ∷ s) (c ∷ t), eq_iff s t)

abbrev dot : Char
dot = "."

dotted :
    (s : String)
    → in_list
        (dot ∷ s)
        (List.◌∷◌ ".jpg" (List.◌∷◌ ".jpeg" (List.◌∷◌ ".png" (List.◌∷◌ ".webp" List.[]))))
      ≡ in_list s (List.◌∷◌ "jpg" (List.◌∷◌ "jpeg" (List.◌∷◌ "png" (List.◌∷◌ "webp" List.[]))))
dotted s =
    rw
      (
        str_eq-cons dot s "jpg",
        str_eq-cons dot s "jpeg",
        str_eq-cons dot s "png",
        str_eq-cons dot s "webp",
      )
      refl

module _ ⦃u : Unicode⦄ where
  abbrev dotted_ok : String → Bool
  dotted_ok e =
      in_list (u.lower e)
        (List.◌∷◌ ".jpg" (List.◌∷◌ ".jpeg" (List.◌∷◌ ".png" (List.◌∷◌ ".webp" List.[]))))

  abbrev plain_ok : String → Bool
  plain_ok e =
      in_list (u.lower (drop_first e))
        (List.◌∷◌ "jpg" (List.◌∷◌ "jpeg" (List.◌∷◌ "png" (List.◌∷◌ "webp" List.[]))))

  dotted_ok-cons : (c : Char) (s : String) → code c ≡ b'.' → dotted_ok (c ∷ s) ≡ plain_ok (c ∷ s)
  dotted_ok-cons c s h = rw (u.lower_dot c s h) (rw (Char-path c dot h) (dotted (u.lower s)))

  extension-none : (name : String) → extension_from false name ≡ none → extension name ≡ ""
  unfolding extension
  extension-none name h = rw (h, extension) refl

  extension-some : (name e : String) → extension_from false name ≡ some e → extension name ≡ e
  unfolding extension
  extension-some name e h = rw (h, extension) refl

  extension_agrees : (name : String) → dotted_ok (extension name) ≡ plain_ok (extension name)
  extension_agrees name = elim (Option-cases (extension_from false name)) [
    | inl n ↦ rw (extension-none name n, u.lower_empty) refl
    | inr (e, p) ↦
        (let (c, s, q, d) = extension_from-dot false name e p in
          rw (extension-some name e p, q) (dotted_ok-cons c s d))
  ]

  -- The serializer's check of a product's picture and that of the model accept the same files,
  -- though the one compares extensions with their full stop and the other without.
  image_checks_agree :
      (f : Upload) → ((validate_image (some f) ≡ ok (some f)) ↔ (clean_product (some f) ≡ ok tt))
  unfolding validate_image clean_product
  image_checks_agree f =
      (λ h. ground (arith, extension_agrees f.name), λ h. ground (arith, extension_agrees f.name))
