-- ===== src/PriceList/Ownership.antt =====
-- Whose product it is after a record of a price list: the search by the number `sku` does not ask for
-- the supplier.
use python_diplom.Base.{
  ap, is_nil, true, false, ℕ, String, Bool, Bool-cases, inl, inr, some, List, [], ◌∷◌, find, str_eq,
  ◌≡◌, refl, ◌∙◌, Option,
}
use python_diplom.PriceList.Writes.{apart-category_named, apart-attribute_named, apart-set_value}
use python_diplom.Table.Unique.{find_by_pk}
use mathlib.Core.Path.{subst}
use python_diplom.Exn.{◌>>=◌, Result-cases, Result, ok, err}
use python_diplom.Models.{Supplier, Category, Db, Product, product_model}
use python_diplom.PriceList.{
  Defaults, stored_of, fill, store_product, after_stored, defaults_of, store_in, store_entry,
  reported, process_record, category_named, Unicode, validate,
}
use python_diplom.Python.{dict, end, text, item, get_field, Python, Value, char_field}
use python_diplom.Table.{get, update}
use python_diplom.Table.Laws.{get-replace_self}
use python_diplom.Characteristics.{attribute_named, set_value, set_values, attribute_pairs}

pub products-category_named :
    (name : String) (db : Db) → (category_named name db).1.products ≡ db.products
products-category_named name db = ap (λ a. a.2) (apart-category_named name db)

products-attribute_named :
    (name : String) (db : Db) → (attribute_named name db).1.products ≡ db.products
products-attribute_named name db = ap (λ a. a.2) (apart-attribute_named name db)

products-set_value :
    (product attribute : ℕ) (value : String) (db : Db)
    → (set_value product attribute value db).products ≡ db.products
products-set_value product attribute value db =
    ap (λ a. a.2) (apart-set_value product attribute value db)

pub products-set_values :
    ⦃py : Python⦄
    → (product : ℕ) (pairs : List (Value × String)) (db : Db)
    → (set_values product pairs db).1.products ≡ db.products
unfolding set_values
products-set_values product [] db = refl
products-set_values product ((name, value) ∷ rest) db = elim (Result-cases (char_field name)) [
  | inr (e, h) ↦ rw (h, set_values) refl
  | inl (s, h) ↦
      let (a, db₁) = attribute_named s db in
      rw (h, set_values)
        (products-set_values product rest (set_value product a.id value db₁)
          ∙ (products-set_value product a.id value db₁ ∙ products-attribute_named s db))
]

-- The product under this key is the supplier's and has the number.
abbrev pub IsOwned : ℕ → Supplier → String → Db → Type 0
IsOwned id s sku db =
    (p : Product) × (get id db.products ≡ some p) × (p.supplier ≡ s.id) × (p.sku ≡ sku)

module _ ⦃py : Python⦄ (s : Supplier) (sku : String) (old : Product) where
  abbrev StoredOwned : Result ℕ × Db → Type 0
  StoredOwned (ok id, db) = IsOwned old.id s old.sku db
  StoredOwned (err e, db) = Unit

  abbrev DoneOwned : Result (Unit {0}) × Db → Type 0
  DoneOwned (ok x, db) = IsOwned old.id s old.sku db
  DoneOwned (err e, db) = Unit

  abbrev Answered : Result (Bool × List String) × Db → Type 0
  Answered (ok (true, ms), db) = IsOwned old.id s old.sku db
  Answered (ok (false, ms), db) = Unit
  Answered (err e, db) = Unit

  store_product-StoredOwned :
      (category : Category) (d : Defaults) (db : Db)
      → find (λ p. str_eq p.sku sku) db.products.rows ≡ some old
      → StoredOwned (store_product s category true sku d db)
  unfolding store_product update
  store_product-StoredOwned category d db h = elim (Result-cases (stored_of old.cost_price d)) [
    | inr (e, l) ↦ rw (h, l, store_product) tt
    | inl (c, l) ↦
        let (p, e) = find_by_pk (λ p. str_eq p.sku sku) db.products.rows old h in
        rw (h, l, store_product)
          (
            fill s category c old,
            get-replace_self (fill s category c old) p db.products.rows e,
            refl,
            refl,
          )
  ]

  set_values-DoneOwned :
      (id : ℕ) (pairs : List (Value × String)) (db : Db)
      → IsOwned old.id s old.sku db
      → (r : Result (Unit {0})) → DoneOwned (r, (set_values id pairs db).1)
  set_values-DoneOwned id pairs db owned (ok x) = rw (products-set_values id pairs db) owned
  set_values-DoneOwned id pairs db owned (err e) = tt

  after_stored-DoneOwned :
      ⦃u : Unicode⦄
      → (entry : Value) (r : Result ℕ) (db : Db) → StoredOwned (r, db)
      → DoneOwned (after_stored entry (r, db))
  after_stored-DoneOwned entry (err e) db h = tt
  after_stored-DoneOwned entry (ok id) db h =
      elim (Result-cases (get_field "attributes" (dict end) entry)) [
        | inr (e, l) ↦ rw (l, after_stored) tt
        | inl (v, l) ↦
            rw (l, after_stored)
              (set_values-DoneOwned id (attribute_pairs v) db h
                (set_values id (attribute_pairs v) db).0)
      ]

  store_in-DoneOwned :
      ⦃u : Unicode⦄
      → (entry : Value) (category : Category) (db : Db) → (item "sku" entry >>= char_field) ≡ ok sku
      → find (λ p. str_eq p.sku sku) db.products.rows ≡ some old
      → DoneOwned (store_in s true entry (category, db))
  unfolding store_in
  store_in-DoneOwned entry category db k h = elim (Result-cases (defaults_of entry)) [
    | inr (e, l) ↦ rw (l, store_in) tt
    | inl (d, l) ↦
        rw (l, k, store_in)
          (after_stored-DoneOwned entry (store_product s category true sku d db).0
            (store_product s category true sku d db).1 (store_product-StoredOwned category d db h))
  ]

  store_entry-DoneOwned :
      ⦃u : Unicode⦄
      → (entry : Value) (db : Db) → (item "sku" entry >>= char_field) ≡ ok sku
      → find (λ p. str_eq p.sku sku) db.products.rows ≡ some old
      → DoneOwned (store_entry s true entry db)
  unfolding store_entry
  store_entry-DoneOwned entry db k h =
      elim (Result-cases (get_field "category" (text "Без категории") entry >>= char_field)) [
        | inr (e, l) ↦ rw (l, store_entry) tt
        | inl (name, l) ↦
            rw (l, store_entry)
              (store_in-DoneOwned entry (category_named name db).0 (category_named name db).1 k
                (rw (products-category_named name db) h))
      ]

  reported-Answered :
      (row_num : Option ℕ) (entry : Value) (r : Result (Unit {0})) (db : Db)
      → DoneOwned (r, db)
      → Answered (reported row_num entry (r, db))
  reported-Answered row_num entry (ok _) db h = h
  reported-Answered row_num entry (err e) db h =
      elim (Result-cases (get_field "sku" (text "N/A") entry)) [
        | inr (e, l) ↦ rw (l, reported) tt
        | inl (v, l) ↦ rw (l, reported) tt
      ]

  process_record-Answered :
      ⦃u : Unicode⦄
      → (row_num : Option ℕ) (entry : Value) (db : Db) → (item "sku" entry >>= char_field) ≡ ok sku
      → find (λ p. str_eq p.sku sku) db.products.rows ≡ some old
      → Answered (process_record s true row_num entry db)
  unfolding process_record
  process_record-Answered row_num entry db k h = elim (Result-cases (validate row_num entry)) [
    | inr (e, l) ↦ rw (l, process_record) tt
    | inl (errors, l) ↦ elim (Bool-cases (is_nil errors)) [
      | inr b ↦ rw (l, b, process_record) tt
      | inl b ↦
          rw (l, b, process_record)
            (reported-Answered row_num entry (store_entry s true entry db).0
              (store_entry s true entry db).1 (store_entry-DoneOwned entry db k h))
    ]
  ]

  -- When a record that may update is stored and its number is that of a product, this product,
  -- whoever sold it, belongs to the importing supplier afterwards and keeps its number.
  pub update_takes_product :
      ⦃u : Unicode⦄
      → (row_num : Option ℕ) (entry : Value) (messages : List String) (db db' : Db)
      → (item "sku" entry >>= char_field) ≡ ok sku
      → find (λ p. str_eq p.sku sku) db.products.rows ≡ some old
      → process_record s true row_num entry db ≡ (ok (true, messages), db')
      → IsOwned old.id s old.sku db'
  update_takes_product row_num entry messages db db' k h done =
      subst Answered done (process_record-Answered row_num entry db k h)
