-- ===== src/Thumbnails/Laws.antt =====
-- What the picture tasks do to the row that they work on, and what they report.
use python_diplom.Base.{ℕ, zero, suc, String, ◌≡◌, refl, ap, ◌∙◌, Option, none, some, [], ◌∷◌}
use python_diplom.Exn.{Exn, ok, err}
use python_diplom.Text.{Unicode}
use python_diplom.Table.{get, update}
use python_diplom.Table.Laws.{get-replace_self}
use python_diplom.Models.{Db, Product, user_model, product_model, image_model}
use python_diplom.Thumbnails.{
  Pillow, Sizes, success, done, retried, create_thumbnail, thumbnail, process_product_image,
  resize_product_image, with_product_thumbnails,
}

module _ ⦃u : Unicode⦄ ⦃p : Pillow⦄ where
  create_thumbnail_failed :
      (name : String) (size : ℕ × ℕ) (suffix : String) (e : Exn)
      → p.open_image name ≡ err e
      → create_thumbnail name size suffix ≡ none
  unfolding create_thumbnail
  create_thumbnail_failed name size suffix e h = rw (h, create_thumbnail) refl

  thumbnail_failed :
      (name suffix : String) (size : Option (ℕ × ℕ)) (field : Option String) (e : Exn)
      → p.open_image name ≡ err e
      → thumbnail name size suffix field ≡ ok field
  unfolding thumbnail
  thumbnail_failed name suffix none field e h = refl
  thumbnail_failed name suffix (some s) field e h =
      rw (create_thumbnail_failed name s suffix e h, thumbnail) refl

  same_product :
      (sizes : Sizes) (text : Exn → String) (retries : ℕ) (v : Product) (name : String) (e : Exn)
      → p.open_image name ≡ err e
      → with_product_thumbnails sizes text retries v name ≡ ok v
  same_product sizes text retries v name e h =
      rw
        (
          thumbnail_failed name "_thumbnail" sizes.thumbnail v.image_thumbnail e h,
          thumbnail_failed name "_small" sizes.small v.image_small e h,
          thumbnail_failed name "_medium" sizes.medium v.image_medium e h,
          thumbnail_failed name "_large" sizes.large v.image_large e h,
        )
        refl

  processed :
      (sizes : Sizes) (text : Exn → String) (retries : ℕ) (v changed : Product) (name : String)
      (db : Db)
      → get v.id db.products ≡ some v
      → v.image ≡ some name
      → with_product_thumbnails sizes text retries v name ≡ ok changed
      → process_product_image sizes text retries v.id db ≡ (
        done (success v.id ("thumbnail" ∷ "small" ∷ "medium" ∷ "large" ∷ [])),
        record db { products = update changed db.products },
      )
  unfolding process_product_image resize_product_image
  processed sizes text retries v changed name db found has made =
      rw (found, process_product_image)
        (ap (λ f. resize_product_image sizes text retries v f db) has
          ∙ rw (made, resize_product_image) refl)

  -- When the picture of a stored product cannot be opened, the task reports a success with all
  -- four thumbnails, and none is made: the product that is stored afterwards is the one that was
  -- stored before.
  pub unreadable_reported :
      (sizes : Sizes) (text : Exn → String) (retries : ℕ) (v : Product) (name : String) (e : Exn)
      (db : Db)
      → get v.id db.products ≡ some v
      → v.image ≡ some name
      → p.open_image name ≡ err e
      → let (outcome, db') = process_product_image sizes text retries v.id db in
        (outcome ≡ done (success v.id ("thumbnail" ∷ "small" ∷ "medium" ∷ "large" ∷ [])))
        × (get v.id db'.products ≡ some v)
  unfolding update
  unreadable_reported sizes text retries v name e db found has bad =
      rw
        (processed sizes text retries v v name db found has
          (same_product sizes text retries v name e bad))
        (refl, get-replace_self v v db.products.rows found)

-- The number of runs of a call that is retry number `retries` and fails each time, with fuel for
-- its retries.
abbrev pub runs : ℕ → ℕ → ℕ
runs zero retries = 0
runs (suc fuel) retries = elim (retried retries "").retry [ none ↦ 1 | some k ↦ suc (runs fuel k) ]

-- A task that fails each time it runs is run four times, the three retries included, and then given
-- up, however long the worker goes on.
pub runs_four : (fuel : ℕ) → runs (suc (suc (suc (suc fuel)))) 0 ≡ 4
unfolding retried
runs_four fuel = refl
