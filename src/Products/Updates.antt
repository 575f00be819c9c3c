-- ===== src/Products/Updates.antt =====
-- An edit of a product with its characteristics: `ProductSerializer.update`.
use python_diplom.Products.Values.{
  values_of, repeats, before_repeat, with_value, add_values-values, add_values-result,
  add_values-others, cleared, cleared-others, before_repeat-all,
}
use python_diplom.Exn.{err-ne-ok, Result, ok, err, integrity_error}
use python_diplom.Models.{product_model, Db, Product, value_model}
use python_diplom.Base.{
  ◌≢◌, sym, ◌∙◌, Option-cases, inl, inr, ℕ, String, true, false, some, List, [], ◌∷◌, find, ◌≡◌,
  refl,
}
use python_diplom.Products.{
  ProductPatch, patched, add_values, clear_values, given_back, update_product,
}
use python_diplom.Table.{update, delete}
use python_diplom.Characteristics.{is_value_of}

products-add_values :
    (product : ℕ) (pairs : List (ℕ × String)) (db : Db)
    → (add_values product pairs db).1.products ≡ db.products
unfolding add_values
products-add_values product [] db = refl
products-add_values product ((attribute, value) ∷ rest) db =
    elim (Option-cases (find (is_value_of product attribute) db.product_attributes.rows)) [
      | inr (v, h) ↦ rw (h, add_values) refl
      | inl h ↦
          rw (h, add_values)
            (products-add_values product rest (with_value product (attribute, value) db))
    ]

db-given_back : (p : Product) (r : Result (Unit {0})) (db : Db) → (given_back p (r, db)).1 ≡ db
db-given_back p (ok x) db = refl
db-given_back p (err e) db = refl

result-given_back :
    (p : Product) (r : Result (Unit {0})) (db : Db) → r ≡ ok tt → (given_back p (r, db)).0 ≡ ok p
result-given_back p (ok x) db h = refl
result-given_back p (err e) db h = absurd (err-ne-ok h)

error-given_back :
    (p : Product) (r : Result (Unit {0})) (db : Db)
    → r ≡ err integrity_error
    → (given_back p (r, db)).0 ≡ err integrity_error
error-given_back p (ok x) db h = absurd (err-ne-ok (sym h))
error-given_back p (err e) db h = cc

abbrev replaced : Product → ProductPatch → Db → Db
replaced p d db = clear_values p.id (record db { products = update (patched d p) db.products })

db-update_product :
    (p : Product) (d : ProductPatch) (pairs : List (ℕ × String)) (db : Db)
    → d.attributes ≡ some pairs
    → (update_product p d db).1 ≡ (add_values p.id pairs (replaced p d db)).1
unfolding update_product
db-update_product p d pairs db h =
    rw (h, update_product)
      (db-given_back (patched d p) (add_values p.id pairs (replaced p d db)).0
        (add_values p.id pairs (replaced p d db)).1)

values_of-replaced :
    (p : Product) (d : ProductPatch) (db : Db) → values_of p.id (replaced p d db) ≡ []
unfolding delete
values_of-replaced p d db = cleared p.id db.product_attributes.rows

-- An edit with characteristics that are all different returns the product with the new fields,
-- after it the product has exactly the given values in their order, and other products keep
-- theirs.
pub update_product-values :
    (p : Product) (d : ProductPatch) (pairs : List (ℕ × String)) (db : Db)
    → d.attributes ≡ some pairs
    → repeats [] pairs ≡ false
    → ((update_product p d db).0 ≡ ok (patched d p))
      × (values_of p.id (update_product p d db).1 ≡ pairs)
      × ((other : ℕ)
          → other ≢ p.id
          → values_of other (update_product p d db).1 ≡ values_of other db)
unfolding update_product delete
update_product-values p d pairs db h once = (
  rw (h, update_product)
      (result-given_back (patched d p) (add_values p.id pairs (replaced p d db)).0
        (add_values p.id pairs (replaced p d db)).1
        (add_values-result p.id pairs (replaced p d db)
          ∙ rw (values_of-replaced p d db, once) refl)),
  rw (db-update_product p d pairs db h) (
      add_values-values p.id pairs (replaced p d db)
      ∙ rw (values_of-replaced p d db) (before_repeat-all [] pairs once)),
  λ other ne. rw (db-update_product p d pairs db h) (
      add_values-others other p.id pairs (replaced p d db) ne
      ∙ cleared-others other p.id db.product_attributes.rows ne),
)

-- An edit that names a characteristic twice raises `IntegrityError` after it has stored the new
-- fields, deleted the old values and stored the values before the repetition.
pub update_product-repeated :
    (p : Product) (d : ProductPatch) (pairs : List (ℕ × String)) (db : Db)
    → d.attributes ≡ some pairs
    → repeats [] pairs ≡ true
    → ((update_product p d db).0 ≡ err integrity_error)
      × (values_of p.id (update_product p d db).1 ≡ before_repeat [] pairs)
      × ((update_product p d db).1.products ≡ update (patched d p) db.products)
unfolding update_product delete
update_product-repeated p d pairs db h twice = (
  rw (h, update_product)
      (error-given_back (patched d p) (add_values p.id pairs (replaced p d db)).0
        (add_values p.id pairs (replaced p d db)).1
        (add_values-result p.id pairs (replaced p d db)
          ∙ rw (values_of-replaced p d db, twice) refl)),
  rw (db-update_product p d pairs db h)
      (add_values-values p.id pairs (replaced p d db) ∙ rw (values_of-replaced p d db) refl),
  rw (db-update_product p d pairs db h) (products-add_values p.id pairs (replaced p d db)),
)
