-- ===== src/PriceList/Presence.antt =====
-- The rows that the writes of a record refer to are there.
use python_diplom.Base.{
  ℕ, String, Option-cases, inl, inr, Bool, true, List, find, any, str_eq, none, ◌≡◌, ap, ◌∙◌, ◌==◌,
  Bool-cases, arith,
}
use python_diplom.Exn.{ok, Result-cases, ok-injective}
use python_diplom.Table.{Table, insert, update}
use python_diplom.Table.Presence.{find-any, any-append_last, any-replace}
use python_diplom.Models.{
  Db, User, Supplier, Product, ProductImage, Order, OrderItem, PriceUpdateLog, Task, Category,
  Attribute, category_model, attribute_model, product_model,
}
use python_diplom.Python.{Python}
use python_diplom.Characteristics.{attribute_named, set_value}
use python_diplom.PriceList.{Defaults, category_named, stored_of, store_product, fill}
use python_diplom.PriceList.Writes.{apart-attribute_named, apart-set_value}

abbrev pub has_product : ℕ → Db → Bool
has_product id db = any (λ p. p.id == id) db.products.rows

abbrev pub has_category : ℕ → Db → Bool
has_category id db = any (λ c. c.id == id) db.categories.rows

abbrev pub has_attribute : ℕ → Db → Bool
has_attribute id db = any (λ a. a.id == id) db.attributes.rows

pub category_named-there :
    (name : String) (db : Db)
    → has_category (category_named name db).0.id (category_named name db).1 ≡ true
unfolding category_named insert
category_named-there name db =
    elim (Option-cases (find (λ c. str_eq c.name name) db.categories.rows)) [
      | inr (c, h) ↦
          rw (h, category_named) (find-any (λ c. str_eq c.name name) db.categories.rows c h)
      | inl h ↦
          rw (h, category_named)
            (any-append_last (λ (c : Category). c.id == db.categories.next_id) db.categories.rows _
              (ground arith))
    ]

pub attribute_named-there :
    (name : String) (db : Db)
    → has_attribute (attribute_named name db).0.id (attribute_named name db).1 ≡ true
unfolding attribute_named insert
attribute_named-there name db =
    elim (Option-cases (find (λ a. str_eq a.name name) db.attributes.rows)) [
      | inr (a, h) ↦
          rw (h, attribute_named) (find-any (λ a. str_eq a.name name) db.attributes.rows a h)
      | inl h ↦
          rw (h, attribute_named)
            (any-append_last (λ (a : Attribute). a.id == db.attributes.next_id) db.attributes.rows _
              (ground arith))
    ]

products_of :
    Table User
      × Table Supplier
      × Table Product
      × Table ProductImage
      × Table Order
      × Table OrderItem
      × Table PriceUpdateLog
      × List Task
    → Table Product
products_of (u, s, p, i, o, t, l, q) = p

pub set_value-has_product :
    (product attribute k : ℕ) (value : String) (db : Db)
    → has_product k (set_value product attribute value db) ≡ has_product k db
unfolding products_of
set_value-has_product product attribute k value db =
    ap (λ a. any (λ (p : Product). p.id == k) (products_of a).rows)
      (apart-set_value product attribute value db)

pub attribute_named-has_product :
    (k : ℕ) (name : String) (db : Db) → has_product k (attribute_named name db).1 ≡ has_product k db
unfolding products_of
attribute_named-has_product k name db =
    ap (λ a. any (λ (p : Product). p.id == k) (products_of a).rows) (apart-attribute_named name db)

module _ ⦃py : Python⦄ where
  pub store_product-there :
      (s : Supplier) (category : Category) (upd : Bool) (sku : String) (d : Defaults) (db : Db)
      (id : ℕ)
      → (store_product s category upd sku d db).0 ≡ ok id
      → has_product id (store_product s category upd sku d db).1 ≡ true
  unfolding store_product insert update
  store_product-there s category upd sku d db id e =
      elim (Option-cases (find (λ p. str_eq p.sku sku) db.products.rows)) [
        | inl h ↦ elim (Result-cases (stored_of none d)) [
          | inr (x, l) ↦ absurd (cc (rw (h, l, store_product) at e))
          | inl (c, l) ↦
              rw (h, l, store_product, ← ok-injective (rw (h, l, store_product) at e))
                (any-append_last (λ (p : Product). p.id == db.products.next_id) db.products.rows _
                  (ground arith))
        ]
        | inr (old, h) ↦
            let there : has_product old.id db ≡ true =
              find-any (λ p. str_eq p.sku sku) db.products.rows old h in
            elim (Bool-cases upd) [
              | inr b ↦
                  rw (h, b, store_product, ← ok-injective (rw (h, b, store_product) at e)) there
              | inl b ↦ elim (Result-cases (stored_of old.cost_price d)) [
                | inr (x, l) ↦ absurd (cc (rw (h, b, l, store_product) at e))
                | inl (c, l) ↦
                    rw (h, b, l, store_product, ← ok-injective (rw (h, b, l, store_product) at e))
                      (any-replace (fill s category c old) old.id db.products.rows ∙ there)
              ]
            ]
      ]
