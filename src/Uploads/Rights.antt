-- ===== src/Uploads/Rights.antt =====
-- Who can change files and suppliers, and what an upload stores.
use python_diplom.Base.{
  ℕ, ◌≡◌, ◌≢◌, refl, ap, ◌∙◌, ◌⊎◌, inl, inr, Bool, true, false, not, ◌&&◌, Option, none, some, List,
  [], ◌∷◌, find, keep, Bool-cases, arith, ◌==◌, String,
}
use python_diplom.Exn.{ok, Result-cases}
use python_diplom.Table.{get, update, delete}
use python_diplom.Table.Laws.{get-replace_self}
use python_diplom.Models.{
  Db, User, Supplier, Product, ProductImage, user_model, supplier_model, product_model, image_model,
}
use python_diplom.Media.{Upload}
use python_diplom.Uploads.{
  Storage, found_in, get_product, may_edit, may_edit_user, upload_avatar, upload_avatar_of,
  delete_avatar, delete_avatar_of, upload_image, upload_image_of, add_additional_image,
  add_image_to, remove_additional_image, toggle_accept_orders,
}

module _ ⦃st : Storage⦄ where
  denied_image :
      (caller : User) (product : Product) (file : Option Upload) (db : Db)
      → may_edit caller product db ≡ false
      → (upload_image_of caller product file db).1 ≡ db
  unfolding upload_image_of
  denied_image caller product file db h = rw (h, upload_image_of) refl

  denied_additional :
      (caller : User) (product : Product) (file : Option Upload) (sort_order : ℕ) (db : Db)
      → may_edit caller product db ≡ false
      → (add_image_to caller product file sort_order db).1 ≡ db
  unfolding add_image_to
  denied_additional caller product file sort_order db h = rw (h, add_image_to) refl

  denied_avatar :
      (code : String) (caller user : User) (file : Option Upload) (db : Db)
      → may_edit_user caller user ≡ false
      → ((upload_avatar_of code caller user file db).1 ≡ db)
        × ((delete_avatar_of code caller user db).1 ≡ db)
  unfolding upload_avatar_of delete_avatar_of
  denied_avatar code caller user file db h =
      (rw (h, upload_avatar_of) refl, rw (h, delete_avatar_of) refl)

  -- A call of `upload_image` that changes the database found a product that its caller sees and
  -- may edit: the owner or a member of the staff.
  upload_image_by_owner :
      (caller : User) (pk : ℕ) (file : Option Upload) (db : Db)
      → (upload_image caller pk file db).1 ≢ db
      → (product : Product) × (get_product caller pk db ≡ ok product)
        × (may_edit caller product db ≡ true)
  unfolding upload_image
  upload_image_by_owner caller pk file db ne = elim (Result-cases (get_product caller pk db)) [
    | inr (e, h) ↦ absurd (ne (rw (h, upload_image) refl))
    | inl (product, h) ↦ elim (Bool-cases (may_edit caller product db)) [
      | inl may ↦ (product, h, may)
      | inr not_may ↦
          absurd (ne (rw (h, upload_image) (denied_image caller product file db not_may)))
    ]
  ]

  -- A call of `add_additional_image` that changes the database found a product that its caller
  -- sees and may edit: the owner or a member of the staff.
  add_additional_image_by_owner :
      (caller : User) (pk : ℕ) (file : Option Upload) (sort_order : ℕ) (db : Db)
      → (add_additional_image caller pk file sort_order db).1 ≢ db
      → (product : Product) × (get_product caller pk db ≡ ok product)
        × (may_edit caller product db ≡ true)
  unfolding add_additional_image
  add_additional_image_by_owner caller pk file sort_order db ne =
      elim (Result-cases (get_product caller pk db)) [
        | inr (e, h) ↦ absurd (ne (rw (h, add_additional_image) refl))
        | inl (product, h) ↦ elim (Bool-cases (may_edit caller product db)) [
          | inl may ↦ (product, h, may)
          | inr not_may ↦ absurd (
              ne (
                rw (h, add_additional_image)
                  (denied_additional caller product file sort_order db not_may)))
        ]
      ]

  -- A call of `upload_image` or `add_additional_image` that changes the database found a product that
  -- its caller sees and may edit.
  pub picture_by_owner :
      (caller : User) (pk : ℕ) (file : Option Upload) (sort_order : ℕ) (db : Db)
      → ((upload_image caller pk file db).1 ≢ db)
        ⊎ ((add_additional_image caller pk file sort_order db).1 ≢ db)
      → (product : Product) × (get_product caller pk db ≡ ok product)
        × (may_edit caller product db ≡ true)
  picture_by_owner caller pk file sort_order db (inl n) = upload_image_by_owner caller pk file db n
  picture_by_owner caller pk file sort_order db (inr n) =
      add_additional_image_by_owner caller pk file sort_order db n

  -- A call of `upload_avatar` or `delete_avatar` that changes the database found the user of the
  -- given key, and its caller is that user or a member of the staff.
  pub avatar_by_owner :
      (code : String) (caller : User) (pk : ℕ) (file : Option Upload) (db : Db)
      → ((upload_avatar code caller pk file db).1 ≢ db) ⊎ ((delete_avatar code caller pk db).1 ≢ db)
      → (user : User) × (found_in (λ u. u.id) pk db.users.rows ≡ ok user)
        × (may_edit_user caller user ≡ true)
  unfolding upload_avatar delete_avatar
  avatar_by_owner code caller pk file db ne =
      elim (Result-cases (found_in (λ (u : User). u.id) pk db.users.rows)) [
        | inr (e, h) ↦ elim ne [
          | inl n ↦ absurd (n (rw (h, upload_avatar) refl))
          | inr n ↦ absurd (n (rw (h, delete_avatar) refl))
        ]
        | inl (user, h) ↦ elim (Bool-cases (may_edit_user caller user)) [
          | inl may ↦ (user, h, may)
          | inr not_may ↦
              let (same, same') = denied_avatar code caller user file db not_may in
              elim ne [
                | inl n ↦ absurd (n (rw (h, upload_avatar) same))
                | inr n ↦ absurd (n (rw (h, delete_avatar) same'))
              ]
        ]
      ]

  -- Whoever may edit a product can store any file as its picture: `upload_image` looks neither at
  -- the size nor at the name, and the thumbnails of the old picture stay until the task has run.
  upload_image_stores :
      (caller : User) (product : Product) (file : Upload) (db : Db)
      → get_product caller product.id db ≡ ok product
      → get product.id db.products ≡ some product
      → may_edit caller product db ≡ true
      → get product.id (upload_image caller product.id (some file) db).1.products
        ≡ some (record product { image = some (st.store "products" file) })
  unfolding upload_image upload_image_of update
  upload_image_stores caller product file db found stored may =
      rw (found, upload_image, may, upload_image_of)
        (get-replace_self (record product { image = some (st.store "products" file) }) product
          db.products.rows stored)

not-not : (b : Bool) → not (not b) ≡ b
not-not true = refl
not-not false = refl

find-removed :
    (k : ℕ) (xs : List ProductImage) → find (λ i. i.id == k) (keep (λ i. not (i.id == k)) xs) ≡ none
find-removed k [] = refl
find-removed k (x ∷ xs) = ground (arith, find-removed k xs)

find-both :
    (k p : ℕ) (xs : List ProductImage) (i : ProductImage)
    → find (λ i. i.id == k) xs ≡ some i
    → i.product ≡ p
    → find (λ i. (i.id == k) && (i.product == p)) xs ≡ some i
find-both k p [] i h e = ground arith
find-both k p (x ∷ xs) i h e = ground (arith, find-both k p xs i)

-- Whoever sees a product can delete a stored additional picture of it: unlike the other handlers,
-- `remove_additional_image` does not ask whether the caller may edit the product.
pub remove_by_viewer :
    (caller : User) (product : Product) (image : ProductImage) (db : Db)
    → get_product caller product.id db ≡ ok product
    → get image.id db.images ≡ some image
    → image.product ≡ product.id
    → get image.id (remove_additional_image caller product.id (some image.id) db).1.images ≡ none
unfolding remove_additional_image delete
remove_by_viewer caller product image db found stored own =
    rw
      (
        found,
        remove_additional_image,
        find-both image.id product.id db.images.rows image stored own,
      )
      (find-removed image.id db.images.rows)

abbrev flipped : Supplier → Supplier
flipped s = record s { is_active = not s.is_active }

abbrev with_supplier : Supplier → Db → Db
with_supplier s db = record db { suppliers = update s db.suppliers }

toggled :
    (caller : User) (s : Supplier) (db : Db)
    → get s.id db.suppliers ≡ some s
    → (toggle_accept_orders caller s.id db).1 ≡ with_supplier (flipped s) db
unfolding toggle_accept_orders
toggled caller s db found = rw (found, toggle_accept_orders) refl

stored_supplier :
    (s s' : Supplier) (db : Db)
    → get s'.id db.suppliers ≡ some s
    → get s'.id (with_supplier s' db).suppliers ≡ some s'
unfolding update
stored_supplier s s' db found = get-replace_self s' s db.suppliers.rows found

flipped_twice : (s : Supplier) → flipped (flipped s) ≡ s
flipped_twice s = ap (λ b. record s { is_active = b }) (not-not s.is_active)

-- Whoever is logged in can switch any stored supplier: `toggle_accept_orders` does not look at its
-- caller. A second call, by anyone, undoes the first.
toggle_by_anyone :
    (caller other : User) (s : Supplier) (db : Db)
    → get s.id db.suppliers ≡ some s
    → let db' = (toggle_accept_orders caller s.id db).1 in
      (get s.id db'.suppliers ≡ some (record s { is_active = not s.is_active }))
      × (get s.id (toggle_accept_orders other s.id db').1.suppliers ≡ some s)
toggle_by_anyone caller other s db found =
    let s' = flipped s in
    let found' = stored_supplier s s' db found in
    rw (toggled caller s db found) (
      found',
      rw (toggled other s' (with_supplier s' db) found') (
          stored_supplier s' (flipped s') (with_supplier s' db) found' ∙ ap some (flipped_twice s)),
    )
