-- ===== src/Media.antt =====
-- Uploaded pictures: `validate_avatar` and `validate_image` of orders/backend/serializers.py,
-- `Product.clean` of orders/backend/models.py, and the uploads of orders/backend/views.py.
use python_diplom.Base.{
  ℕ, ◌*◌, String, Bool, not, Option, none, some, List, [], ◌∷◌, any, str_eq, ltb, if◌then◌else◌,
}
pub mod Agreement
use python_diplom.Exn.{Result, ok, err, validation_error}
use python_diplom.Text.{Unicode, extension, drop_first}
use python_diplom.Models.{user_model, product_model, image_model, supplier_model}

-- A file of the request: its name and its size in bytes.
pub record Upload : Type 0 where
  pub name : String
  pub size : ℕ

-- `value in options`
abbrev pub in_list : String → List String → Bool
in_list s options = any (str_eq s) options

abbrev pub max_size : ℕ
max_size = 5 * 1024 * 1024

module _ ⦃u : Unicode⦄ where
  -- `validate_avatar` and `validate_image`: they differ in one message
  abbrev pub validate_upload : String → String → Option Upload → Result (Option Upload)
  validate_upload field too_big none = ok none
  validate_upload field too_big (some value) =
      if ltb max_size value.size
      then err (validation_error field too_big)
      else if not
          (in_list (u.lower (extension value.name)) (".jpg" ∷ ".jpeg" ∷ ".png" ∷ ".webp" ∷ []))
      then err
          (validation_error field "Разрешены только следующие форматы: .jpg, .jpeg, .png, .webp")
      else ok (some value)

  pub validate_avatar : Option Upload → Result (Option Upload)
  unfolding extension
  validate_avatar = validate_upload "avatar" "Размер аватара не должен превышать 5МБ"

  pub validate_image : Option Upload → Result (Option Upload)
  unfolding extension
  validate_image = validate_upload "image" "Размер изображения не должен превышать 5МБ"

  -- `Product.clean`
  pub clean_product : Option Upload → Result (Unit {0})
  unfolding extension
  clean_product none = ok tt
  clean_product (some image) =
      if ltb max_size image.size
      then err (validation_error "image" "Размер изображения не должен превышать 5МБ")
      else if not (
          in_list (u.lower (drop_first (extension image.name)))
            ("jpg" ∷ "jpeg" ∷ "png" ∷ "webp" ∷ []))
      then err (validation_error "image" "Разрешены только следующие форматы: jpg, jpeg, png, webp")
      else ok tt
