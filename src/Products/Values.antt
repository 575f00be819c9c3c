-- ===== src/Products/Values.antt =====
-- The characteristics of a product after `ProductSerializer.create` and `update`.
use mathlib.Core.List.{append-nil}
use python_diplom.Exn.{Result, ok, err, integrity_error}
use python_diplom.Models.{product_model, Db, ProductAttribute, value_model}
use python_diplom.Base.{
  ◌≢◌, not, keep, ap, sym, ◌∙◌, Option-cases, inl, inr, ℕ, String, Bool, true, false, none, some,
  List, [], ◌∷◌, ◌++◌, map, any, find, ◌==◌, ◌||◌, if◌then◌else◌, ◌≡◌, refl, arith,
}
use python_diplom.Products.{add_values}
use python_diplom.Table.{insert}
use python_diplom.Characteristics.{is_value_of, value_row}

-- the characteristics with their values that these rows hold for a product
abbrev pub values_in : ℕ → List ProductAttribute → List (ℕ × String)
values_in product rows = map (λ v. (v.attribute, v.value)) (keep (λ v. v.product == product) rows)

abbrev pub values_of : ℕ → Db → List (ℕ × String)
values_of product db = values_in product db.product_attributes.rows

abbrev pub is_named : ℕ → List (ℕ × String) → Bool
is_named attribute pairs = any (λ pair. pair.0 == attribute) pairs

-- The entries before the first one whose characteristic was there already.
abbrev pub before_repeat : List (ℕ × String) → List (ℕ × String) → List (ℕ × String)
before_repeat seen [] = []
before_repeat seen (pair ∷ rest) =
    let more = before_repeat (seen ++ pair ∷ []) rest in
    if is_named pair.0 seen then [] else pair ∷ more

abbrev pub repeats : List (ℕ × String) → List (ℕ × String) → Bool
repeats seen [] = false
repeats seen (pair ∷ rest) = is_named pair.0 seen || repeats (seen ++ pair ∷ []) rest

abbrev pub result_of : Bool → Result (Unit {0})
result_of repeated = if repeated then err integrity_error else ok tt

is_named-find-none :
    (product attribute : ℕ) (rows : List ProductAttribute)
    → find (is_value_of product attribute) rows ≡ none
    → is_named attribute (values_in product rows) ≡ false
is_named-find-none product attribute [] h = refl
is_named-find-none product attribute (v ∷ rows) h =
    ground (arith, is_named-find-none product attribute rows)

is_named-find-some :
    (product attribute : ℕ) (rows : List ProductAttribute) (v : ProductAttribute)
    → find (is_value_of product attribute) rows ≡ some v
    → is_named attribute (values_in product rows) ≡ true
is_named-find-some product attribute [] v h = absurd (ground arith)
is_named-find-some product attribute (w ∷ rows) v h =
    ground (arith, is_named-find-some product attribute rows v)

values_in-append :
    (product attribute id : ℕ) (value : String) (rows : List ProductAttribute)
    → values_in product (rows ++ value_row product attribute value id ∷ [])
      ≡ values_in product rows ++ (attribute, value) ∷ []
values_in-append product attribute id value [] = ground arith
values_in-append product attribute id value (v ∷ rows) =
    ground (arith, values_in-append product attribute id value rows)

snoc-append {ℓ} :
    {A : Type ℓ} (xs : List A) (x : A) (ys : List A) → (xs ++ x ∷ []) ++ ys ≡ xs ++ x ∷ ys
snoc-append [] x ys = refl
snoc-append (z ∷ xs) x ys = ap (λ l. z ∷ l) (snoc-append xs x ys)

abbrev pub with_value : ℕ → ℕ × String → Db → Db
with_value product (attribute, value) db = record db {
  product_attributes = (insert (value_row product attribute value) db.product_attributes).1;
}

pub values_of-with_value :
    (product : ℕ) (pair : ℕ × String) (db : Db)
    → values_of product (with_value product pair db) ≡ values_of product db ++ pair ∷ []
unfolding insert
values_of-with_value product (attribute, value) db =
    values_in-append product attribute db.product_attributes.next_id value
      db.product_attributes.rows

-- The rows that are stored, and whether the database refuses one.
pub add_values-values :
    (product : ℕ) (pairs : List (ℕ × String)) (db : Db)
    → values_of product (add_values product pairs db).1
      ≡ values_of product db ++ before_repeat (values_of product db) pairs
unfolding add_values
add_values-values product [] db = sym (append-nil (values_of product db))
add_values-values product ((attribute, value) ∷ rest) db =
    elim (Option-cases (find (is_value_of product attribute) db.product_attributes.rows)) [
      | inr (v, h) ↦
          rw (h, add_values, is_named-find-some product attribute db.product_attributes.rows v h)
            (sym (append-nil (values_of product db)))
      | inl h ↦
          let db' = with_value product (attribute, value) db in
          rw (h, add_values, is_named-find-none product attribute db.product_attributes.rows h)
            (add_values-values product rest db'
              ∙ (rw (values_of-with_value product (attribute, value) db) (
                  snoc-append (values_of product db) (attribute, value)
                    (before_repeat (values_of product db ++ (attribute, value) ∷ []) rest))))
    ]

pub add_values-result :
    (product : ℕ) (pairs : List (ℕ × String)) (db : Db)
    → (add_values product pairs db).0 ≡ result_of (repeats (values_of product db) pairs)
unfolding add_values
add_values-result product [] db = refl
add_values-result product ((attribute, value) ∷ rest) db =
    elim (Option-cases (find (is_value_of product attribute) db.product_attributes.rows)) [
      | inr (v, h) ↦
          rw (h, add_values, is_named-find-some product attribute db.product_attributes.rows v h)
            refl
      | inl h ↦
          rw (h, add_values, is_named-find-none product attribute db.product_attributes.rows h)
            (add_values-result product rest (with_value product (attribute, value) db)
              ∙ (rw (values_of-with_value product (attribute, value) db) refl))
    ]

values_in-others :
    (other product attribute id : ℕ) (value : String) (rows : List ProductAttribute)
    → other ≢ product
    → values_in other (rows ++ value_row product attribute value id ∷ []) ≡ values_in other rows
values_in-others other product attribute id value [] ne = ground (arith, ne)
values_in-others other product attribute id value (v ∷ rows) ne =
    ground (arith, values_in-others other product attribute id value rows ne)

pub add_values-others :
    (other product : ℕ) (pairs : List (ℕ × String)) (db : Db)
    → other ≢ product
    → values_of other (add_values product pairs db).1 ≡ values_of other db
unfolding add_values insert
add_values-others other product [] db ne = refl
add_values-others other product ((attribute, value) ∷ rest) db ne =
    elim (Option-cases (find (is_value_of product attribute) db.product_attributes.rows)) [
      | inr (v, h) ↦ rw (h, add_values) refl
      | inl h ↦
          rw (h, add_values)
            (add_values-others other product rest (with_value product (attribute, value) db) ne
              ∙ values_in-others other product attribute db.product_attributes.next_id value
                  db.product_attributes.rows ne)
    ]

pub cleared :
    (product : ℕ) (rows : List ProductAttribute)
    → values_in product (keep (λ v. not (v.product == product)) rows) ≡ []
cleared product [] = refl
cleared product (v ∷ rows) = ground (arith, cleared product rows)

pub cleared-others :
    (other product : ℕ) (rows : List ProductAttribute)
    → other ≢ product
    → values_in other (keep (λ v. not (v.product == product)) rows) ≡ values_in other rows
cleared-others other product [] ne = refl
cleared-others other product (v ∷ rows) ne = ground (arith, cleared-others other product rows ne)

pub before_repeat-all :
    (seen pairs : List (ℕ × String)) → repeats seen pairs ≡ false → before_repeat seen pairs ≡ pairs
before_repeat-all seen [] h = refl
before_repeat-all seen (pair ∷ rest) h = ground (arith, before_repeat-all (seen ++ pair ∷ []) rest)
