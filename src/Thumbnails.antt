-- ===== src/Thumbnails.antt =====
-- The picture tasks of orders/backend/tasks.py: `create_thumbnail`, `process_user_avatar`,
-- `process_product_image` and `process_product_additional_image`.
pub mod Laws
pub mod Optimize
use Prim.Native.String
use python_diplom.Base.{
  ℕ, ◌+◌, String, Bool, true, false, ◌||◌, Option, none, some, List, [], ◌∷◌, str_eq, ltb,
  if◌then◌else◌,
}
use python_diplom.Exn.{Exn, Result, ok, err, ◌>>=◌}
use python_diplom.Text.{Unicode, extension, stem, basename}
use python_diplom.Table.{Table, get, update}
use python_diplom.Models.{
  Db, User, Product, ProductImage, FileField, user_model, product_model, image_model,
}
use python_diplom.Action.{Action}
use python_diplom.Accounts.{save_user}
use python_diplom.Media.{in_list}

-- The calls of Pillow, and how the media storage names a file that it is given; it may raise.
pub record Pillow : Type 1 where
  pub Image : Type 0
  pub Bytes : Type 0
  pub open_image : String → Result Image
  pub mode : Image → String
  pub to_rgba : Image → Image
  -- pasted on a white `RGB` background, with the last channel as the mask or without a mask
  pub paste_on_white : Bool → Image → Image
  pub shrink : ℕ × ℕ → Image → Image
  pub encode : String → Image → Result Bytes
  pub stored_name : String → Bytes → Result String

module _ ⦃u : Unicode⦄ ⦃p : Pillow⦄ where
  -- `if img.mode in ('RGBA', 'LA', 'P')`: the picture without transparency
  pub flatten : p.Image → p.Image
  flatten img =
      let wide = if str_eq (p.mode img) "P" then p.to_rgba img else img in
      if in_list (p.mode img) ("RGBA" ∷ "LA" ∷ "P" ∷ [])
      then p.paste_on_white (str_eq (p.mode wide) "RGBA") wide
      else img

  -- `save_format`
  pub save_format : String → String
  unfolding extension
  save_format name =
      if in_list (u.lower (extension name)) (".jpg" ∷ ".jpeg" ∷ []) then "JPEG" else "PNG"

  -- `new_name`
  pub new_name : String → String → String
  unfolding extension stem
  new_name name suffix =
      String.◌++◌ (stem (basename name)) (String.◌++◌ suffix (extension (basename name)))

  -- `create_thumbnail`: any exception makes it return `None`
  pub create_thumbnail : String → ℕ × ℕ → String → Option (String × p.Bytes)
  unfolding flatten save_format new_name
  create_thumbnail name size suffix = elim (p.open_image name) [
    | err e ↦ none
    | ok img ↦ elim (p.encode (save_format name) (p.shrink size (flatten img))) [
      | err e ↦ none
      | ok bytes ↦ some (new_name name suffix, bytes)
    ]
  ]

  -- `if sizes.get(…)`: a thumbnail of the original `name`, or the field as it was
  pub thumbnail : String → Option (ℕ × ℕ) → String → FileField → Result FileField
  unfolding create_thumbnail
  thumbnail name none suffix field = ok field
  thumbnail name (some size) suffix field = elim (create_thumbnail name size suffix) [
    | none ↦ ok field
    | some (file, bytes) ↦ p.stored_name file bytes >>= (λ stored. ok (some stored))
  ]

-- `settings.THUMBNAIL_SIZES` of orders/orders/settings.py
pub record Sizes : Type 0 where
  pub thumbnail : Option (ℕ × ℕ)
  pub small : Option (ℕ × ℕ)
  pub medium : Option (ℕ × ℕ)
  pub large : Option (ℕ × ℕ)

abbrev pub avatar_sizes : Sizes
avatar_sizes = record {
  thumbnail = none;
  small = some (50, 50);
  medium = some (150, 150);
  large = some (300, 300);
}

abbrev pub product_sizes : Sizes
product_sizes = record {
  thumbnail = some (150, 150);
  small = some (300, 300);
  medium = some (600, 600);
  large = some (1200, 1200);
}

-- What a task returns; `nothing` is `None`.
pub data Answer : Type 0 where
  nothing : Answer
  success : ℕ → List String → Answer
  failure : String → Answer

-- The answer, and the retry that the call has scheduled, with its number. `self.retry` raises after
-- it has scheduled one, or because there were three; the task catches both and answers alike.
pub record Outcome : Type 0 where
  pub answer : Answer
  pub retry : Option ℕ

abbrev pub done : Answer → Outcome
done a = record { answer = a; retry = none }

abbrev pub max_retries : ℕ
max_retries = 3

-- `except Exception as e`, in the call that is retry number `retries`
pub retried : ℕ → String → Outcome
retried retries text = record {
  answer = failure text;
  retry = if ltb retries max_retries then some (retries + 1) else none;
}

module _ ⦃u : Unicode⦄ ⦃p : Pillow⦄ (sizes : Sizes) (text : Exn → String) (retries : ℕ) where
  abbrev pub with_thumbnails : User → String → Result User
  with_thumbnails v name = do
    small ← thumbnail name sizes.small "_small" v.avatar_small
    medium ← thumbnail name sizes.medium "_medium" v.avatar_medium
    large ← thumbnail name sizes.large "_large" v.avatar_large
    ok (record v { avatar_small = small; avatar_medium = medium; avatar_large = large })

  -- `process_user_avatar`; `code` is for `User.save`
  pub process_user_avatar : String → ℕ → Db → Outcome × Db
  process_user_avatar code user_id db = elim (get user_id db.users) [
    | none ↦ (done (failure "User not found"), db)
    | some v ↦ elim v.avatar [
      | none ↦ (done nothing, db)
      | some name ↦ elim (with_thumbnails v name) [
        | err e ↦ (retried retries (text e), db)
        | ok changed ↦
            (let (r, db') = save_user code changed db in
              elim r [
                | ok _ ↦ (done (success user_id ("small" ∷ "medium" ∷ "large" ∷ [])), db')
                | err e ↦ (retried retries (text e), db')
              ])
      ]
    ]
  ]

  abbrev pub with_product_thumbnails : Product → String → Result Product
  with_product_thumbnails v name = do
    thumb ← thumbnail name sizes.thumbnail "_thumbnail" v.image_thumbnail
    small ← thumbnail name sizes.small "_small" v.image_small
    medium ← thumbnail name sizes.medium "_medium" v.image_medium
    large ← thumbnail name sizes.large "_large" v.image_large
    ok (record v {
      image_thumbnail = thumb;
      image_small = small;
      image_medium = medium;
      image_large = large;
    })

  -- the part of `process_product_image` after `Product.objects.get`, with `product.image`; the
  -- columns that a save could refuse are unchanged
  pub resize_product_image : Product → FileField → Db → Outcome × Db
  resize_product_image v none db = (done nothing, db)
  resize_product_image v (some name) db = elim (with_product_thumbnails v name) [
    | err e ↦ (retried retries (text e), db)
    | ok changed ↦ (
      done (success v.id ("thumbnail" ∷ "small" ∷ "medium" ∷ "large" ∷ [])),
      record db { products = update changed db.products },
    )
  ]

  -- `process_product_image`
  pub process_product_image : ℕ → Db → Outcome × Db
  process_product_image product_id db = elim (get product_id db.products) [
    | none ↦ (done (failure "Product not found"), db)
    | some v ↦ resize_product_image v v.image db
  ]

  abbrev pub with_image_thumbnails : ProductImage → String → Result ProductImage
  with_image_thumbnails v name = do
    thumb ← thumbnail name sizes.thumbnail "_thumbnail" v.image_thumbnail
    small ← thumbnail name sizes.small "_small" v.image_small
    medium ← thumbnail name sizes.medium "_medium" v.image_medium
    ok (record v { image_thumbnail = thumb; image_small = small; image_medium = medium })

  -- `process_product_additional_image`
  pub process_product_additional_image : ℕ → Db → Outcome × Db
  process_product_additional_image image_id db = elim (get image_id db.images) [
    | none ↦ (done (failure "Image not found"), db)
    | some v ↦ elim v.image [
      | none ↦ (done nothing, db)
      | some name ↦ elim (with_image_thumbnails v name) [
        | err e ↦ (retried retries (text e), db)
        | ok changed ↦ (
          done (success image_id ("thumbnail" ∷ "small" ∷ "medium" ∷ [])),
          record db { images = update changed db.images },
        )
      ]
    ]
  ]
