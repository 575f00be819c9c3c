-- ===== src/PriceList/Frame.antt =====
-- What one record of a price list keeps: a property of the database that each of the writes of
-- `_process_product_record` keeps.
use python_diplom.Base.{
  ℕ, String, Bool, Bool-cases, Option-cases, Option, none, some, List, [], ◌∷◌, find, is_nil,
  str_eq, true, ◌≡◌, ◌∙◌, refl, inl, inr,
}
use python_diplom.Exn.{Result, ok, err, Result-cases, ◌>>=◌}
use python_diplom.Text.{Unicode}
use python_diplom.Models.{Db, Supplier, Category, Product}
use python_diplom.Python.{Python, Value, dict, end, text, get_field, char_field, item}
use python_diplom.RecordCheck.{validate}
use python_diplom.Characteristics.{attribute_named, set_value, set_values, attribute_pairs}
use python_diplom.PriceList.Presence.{
  has_product, has_category, has_attribute, category_named-there, attribute_named-there,
  set_value-has_product, attribute_named-has_product, store_product-there,
}
use python_diplom.PriceList.{
  Defaults, category_named, stored_of, store_product, add_product, put_product, after_stored,
  store_in, store_entry, defaults_of, reported, process_record, fill, no_product,
}

-- The property holds after a write for the supplier if it held before. Stored products are written only
-- if the import may update.
pub record Keeps (supplier : Supplier) (upd : Bool) (Q : Db → Type 0) : Type 0 where
  pub keeps_category : (name : String) (db : Db) → Q db → Q (category_named name db).1
  pub keeps_attribute : (name : String) (db : Db) → Q db → Q (attribute_named name db).1
  pub keeps_value :
      (product attribute : ℕ) (value : String) (db : Db)
      → has_product product db ≡ true
      → has_attribute attribute db ≡ true
      → Q db
      → Q (set_value product attribute value db)
  pub keeps_add :
      (p : Product) (db : Db)
      → find (λ q. str_eq q.sku p.sku) db.products.rows ≡ none
      → p.supplier ≡ supplier.id
      → has_category p.category db ≡ true
      → Q db
      → Q (add_product p db)
  pub keeps_put :
      (p old : Product) (sku : String) (db : Db)
      → find (λ q. str_eq q.sku sku) db.products.rows ≡ some old
      → p.id ≡ old.id
      → p.sku ≡ old.sku
      → upd ≡ true
      → p.supplier ≡ supplier.id
      → has_category p.category db ≡ true
      → Q db
      → Q (put_product p db)

module _ ⦃py : Python⦄ (supplier : Supplier) (upd : Bool) (Q : Db → Type 0)
    (k : Keeps supplier upd Q) where
  set_values-keeps :
      (product : ℕ) (pairs : List (Value × String)) (db : Db)
      → has_product product db ≡ true
      → Q db
      → Q (set_values product pairs db).1
  unfolding set_values
  set_values-keeps product [] db there q = q
  set_values-keeps product ((name, value) ∷ rest) db there q =
      elim (Result-cases (char_field name)) [
        | inr (e, h) ↦ rw (h, set_values) q
        | inl (s, h) ↦
            let (a, db₁) = attribute_named s db in
            let there₁ : has_product product db₁ ≡ true =
              attribute_named-has_product product s db ∙ there in
            rw (h, set_values)
              (set_values-keeps product rest (set_value product a.id value db₁)
                (set_value-has_product product a.id product value db₁ ∙ there₁)
                (k.keeps_value product a.id value db₁ there₁ (attribute_named-there s db)
                  (k.keeps_attribute s db q)))
      ]

  store_product-keeps :
      (category : Category) (sku : String) (d : Defaults) (db : Db)
      → has_category category.id db ≡ true
      → Q db
      → Q (store_product supplier category upd sku d db).1
  unfolding store_product
  store_product-keeps category sku d db there q =
      elim (Option-cases (find (λ p. str_eq p.sku sku) db.products.rows)) [
        | inl h ↦ elim (Result-cases (stored_of none d)) [
          | inr (e, l) ↦ rw (h, l, store_product) q
          | inl (c, l) ↦
              rw (h, l, store_product)
                (k.keeps_add (fill supplier category c (no_product sku 0)) db h refl there q)
        ]
        | inr (old, h) ↦ elim (Bool-cases upd) [
          | inr b ↦ rw (h, b, store_product) q
          | inl b ↦ elim (Result-cases (stored_of old.cost_price d)) [
            | inr (e, l) ↦ rw (h, b, l, store_product) q
            | inl (c, l) ↦
                rw (h, b, l, store_product)
                  (k.keeps_put (fill supplier category c old) old sku db h refl refl b refl there q)
          ]
        ]
      ]

  after_stored-keeps :
      ⦃u : Unicode⦄
      → (entry : Value) (r : Result ℕ) (db : Db) → ((id : ℕ) → r ≡ ok id → has_product id db ≡ true)
      → Q db
      → Q (after_stored entry (r, db)).1
  after_stored-keeps entry (err e) db there q = q
  after_stored-keeps entry (ok id) db there q =
      elim (Result-cases (get_field "attributes" (dict end) entry)) [
        | inr (e, h) ↦ rw (h, after_stored) q
        | inl (v, h) ↦
            rw (h, after_stored) (set_values-keeps id (attribute_pairs v) db (there id refl) q)
      ]

  store_in-keeps :
      ⦃u : Unicode⦄
      → (entry : Value) (category : Category) (db : Db) → has_category category.id db ≡ true
      → Q db
      → Q (store_in supplier upd entry (category, db)).1
  unfolding store_in
  store_in-keeps entry category db there q = elim (Result-cases (defaults_of entry)) [
    | inr (e, h) ↦ rw (h, store_in) q
    | inl (d, h) ↦ elim (Result-cases (item "sku" entry >>= char_field)) [
      | inr (e, l) ↦ rw (h, l, store_in) q
      | inl (sku, l) ↦
          rw (h, l, store_in)
            (after_stored-keeps entry (store_product supplier category upd sku d db).0
              (store_product supplier category upd sku d db).1
              (store_product-there supplier category upd sku d db)
              (store_product-keeps category sku d db there q))
    ]
  ]

  store_entry-keeps :
      ⦃u : Unicode⦄ → (entry : Value) (db : Db) → Q db → Q (store_entry supplier upd entry db).1
  unfolding store_entry
  store_entry-keeps entry db q =
      elim (Result-cases (get_field "category" (text "Без категории") entry >>= char_field)) [
        | inr (e, h) ↦ rw (h, store_entry) q
        | inl (name, h) ↦
            rw (h, store_entry)
              (store_in-keeps entry (category_named name db).0 (category_named name db).1
                (category_named-there name db) (k.keeps_category name db q))
      ]

  reported-keeps :
      (row_num : Option ℕ) (entry : Value) (r : Result (Unit {0})) (db : Db)
      → Q db
      → Q (reported row_num entry (r, db)).1
  reported-keeps row_num entry (ok _) db q = q
  reported-keeps row_num entry (err e) db q =
      elim (Result-cases (get_field "sku" (text "N/A") entry)) [
        | inr (e, h) ↦ rw (h, reported) q
        | inl (v, h) ↦ rw (h, reported) q
      ]

  pub process_record-keeps :
      ⦃u : Unicode⦄
      → (row_num : Option ℕ) (entry : Value) (db : Db) → Q db
      → Q (process_record supplier upd row_num entry db).1
  unfolding process_record
  process_record-keeps row_num entry db q = elim (Result-cases (validate row_num entry)) [
    | inr (e, h) ↦ rw (h, process_record) q
    | inl (errors, h) ↦ elim (Bool-cases (is_nil errors)) [
      | inr b ↦ rw (h, b, process_record) q
      | inl b ↦
          rw (h, b, process_record)
            (reported-keeps row_num entry (store_entry supplier upd entry db).0
              (store_entry supplier upd entry db).1 (store_entry-keeps entry db q))
    ]
  ]
