-- ===== src/PriceList.antt =====
-- One record of a price list: `_process_product_record` of `ProductViewSet` in
-- orders/backend/views.py. The limits of the columns on the length of a text and on the size of a
-- whole number are left out.
use Prim.Native.String
pub mod Writes
pub mod Presence
pub mod Frame
pub mod Catalogue
pub mod Ownership
pub mod Storing
use python_diplom.Base.{
  ℕ, String, Bool, true, false, Option, none, some, List, [], ◌∷◌, find, is_nil, str_eq,
  if◌then◌else◌,
}
use python_diplom.Base.Int.{ℤ, pos}
use python_diplom.Exn.{Exn, Result, ok, err, ◌>>=◌}
use python_diplom.Text.{Unicode}
use python_diplom.Table.{insert, update}
use python_diplom.Models.{
  Db, Supplier, Category, Product, product_model, category_model, attribute_model, value_model,
}
use python_diplom.Python.{
  Value, text, whole, dict, end, Python, truthy, has_key, item, get_field, char_field,
  positive_field,
}
use python_diplom.RecordCheck.{row_prefix, validate}
use python_diplom.Characteristics.{attribute_pairs, set_values}

-- `Category.objects.get_or_create(name=name)`
unfoldable pub category_named : String → Db → Category × Db
category_named name db = elim (find (λ c. str_eq c.name name) db.categories.rows) [
  | some c ↦ (c, db)
  | none ↦
      (let (c, table) =
          insert (λ id. record { id = id; name = name; parent = none }) db.categories in
        (c, record db { categories = table }))
]

-- The defaults as the columns of a row hold them.
pub record Stored : Type 0 where
  pub name : String
  pub description : String
  pub price : ℤ
  pub cost_price : Option ℤ
  pub stock_quantity : ℕ
  pub min_order_quantity : ℕ
  pub unit : String
  pub is_active : Bool

module _ ⦃py : Python⦄ where
  -- `product_defaults`; `cost_price` is `none` when the key is left out
  pub record Defaults : Type 0 where
    pub name : Value
    pub description : Value
    pub price : py.Decimal
    pub stock_quantity : ℤ
    pub min_order_quantity : ℤ
    pub unit : Value
    pub is_active : Bool
    pub cost_price : Option py.Decimal

  abbrev pub given_cost : Value → Result (Option py.Decimal)
  given_cost v = if truthy v then py.decimal (py.str v) >>= (λ cost. ok (some cost)) else ok none

  unfoldable pub cost_of : Value → Result (Option py.Decimal)
  cost_of entry = do
    has ← has_key "cost_price" entry
    if has then item "cost_price" entry >>= given_cost else ok none

  unfoldable pub defaults_of : ⦃u : Unicode⦄ → Value → Result Defaults
  unfolding cost_of
  defaults_of ⦃u⦄ entry = do
    name ← item "name" entry
    description ← get_field "description" (text "") entry
    price ← item "price" entry
    price ← py.decimal (py.str price)
    stock_quantity ← item "stock_quantity" entry
    stock_quantity ← py.int stock_quantity
    minimum ← get_field "min_order_quantity" (whole (pos 1)) entry
    minimum ← py.int minimum
    unit ← get_field "unit" (text "шт") entry
    active ← get_field "is_active" (text "true") entry
    cost_price ← cost_of entry
    ok (record {
      name = name;
      description = description;
      price = price;
      stock_quantity = stock_quantity;
      min_order_quantity = minimum;
      unit = unit;
      is_active = str_eq (u.lower (py.str active)) "true";
      cost_price = cost_price;
    })

  abbrev pub column_or : Option ℤ → Option py.Decimal → Result (Option ℤ)
  column_or old none = ok old
  column_or old (some cost) = do amount ← py.column cost; ok (some amount)

  -- The numbers are converted before the row is sent to the database, which refuses `None` and
  -- negative quantities; `old` is the stored cost price.
  unfoldable pub stored_of : Option ℤ → Defaults → Result Stored
  stored_of old d = do
    price ← py.column d.price
    cost_price ← column_or old d.cost_price
    name ← char_field d.name
    description ← char_field d.description
    stock_quantity ← positive_field d.stock_quantity
    min_order_quantity ← positive_field d.min_order_quantity
    unit ← char_field d.unit
    ok (record {
      name = name;
      description = description;
      price = price;
      cost_price = cost_price;
      stock_quantity = stock_quantity;
      min_order_quantity = min_order_quantity;
      unit = unit;
      is_active = d.is_active;
    })

-- The row of the product that `base` becomes.
abbrev pub fill : Supplier → Category → Stored → Product → Product
fill supplier category d base = record base {
  supplier = supplier.id;
  category = category.id;
  name = d.name;
  description = d.description;
  price = d.price;
  cost_price = d.cost_price;
  stock_quantity = d.stock_quantity;
  min_order_quantity = d.min_order_quantity;
  unit = d.unit;
  is_active = d.is_active;
}

abbrev pub no_product : String → ℕ → Product
no_product sku id = record {
  id = id;
  supplier = 0;
  category = 0;
  name = "";
  sku = sku;
  description = "";
  price = pos 0;
  cost_price = none;
  stock_quantity = 0;
  min_order_quantity = 1;
  unit = "";
  is_active = true;
  image = none;
  image_thumbnail = none;
  image_small = none;
  image_medium = none;
  image_large = none;
}

-- `Product.objects.create(…)` of a row that is complete but for its key
abbrev pub add_product : Product → Db → Db
add_product p db = record db { products = (insert (λ id. record p { id = id }) db.products).1 }

abbrev pub put_product : Product → Db → Db
put_product p db = record db { products = update p db.products }

module _ ⦃py : Python⦄ where
  -- `update_or_create` or `get_or_create` by the number of the product: the key of its row
  unfoldable pub store_product : Supplier → Category → Bool → String → Defaults → Db → Result ℕ × Db
  unfolding stored_of
  store_product supplier category update_existing sku d db =
      elim (find (λ p. str_eq p.sku sku) db.products.rows) [
        | none ↦ elim (stored_of none d) [
          | err e ↦ (err e, db)
          | ok c ↦
              (ok db.products.next_id, add_product (fill supplier category c (no_product sku 0)) db)
        ]
        | some old ↦
            if update_existing
            then elim (stored_of old.cost_price d) [
              | err e ↦ (err e, db)
              | ok c ↦ (ok old.id, put_product (fill supplier category c old) db)
            ]
            else (ok old.id, db)
      ]

  abbrev pub after_stored : ⦃u : Unicode⦄ → Value → Result ℕ × Db → Result (Unit {0}) × Db
  after_stored entry (err e, db) = (err e, db)
  after_stored entry (ok id, db) = elim (get_field "attributes" (dict end) entry) [
    | err e ↦ (err e, db)
    | ok v ↦ set_values id (attribute_pairs v) db
  ]

  -- the `try` block of `_process_product_record`, once the category is there
  unfoldable pub store_in :
      ⦃u : Unicode⦄ → Supplier → Bool → Value → Category × Db → Result (Unit {0}) × Db
  unfolding store_product
  store_in supplier update_existing entry (category, db) = elim (defaults_of entry) [
    | err e ↦ (err e, db)
    | ok d ↦ elim (item "sku" entry >>= char_field) [
      | err e ↦ (err e, db)
      | ok sku ↦ after_stored entry (store_product supplier category update_existing sku d db)
    ]
  ]

  -- the `try` block of `_process_product_record`
  unfoldable pub store_entry : ⦃u : Unicode⦄ → Supplier → Bool → Value → Db → Result (Unit {0}) × Db
  unfolding store_in
  store_entry supplier update_existing entry db =
      elim (get_field "category" (text "Без категории") entry >>= char_field) [
        | err e ↦ (err e, db)
        | ok name ↦ store_in supplier update_existing entry (category_named name db)
      ]

  abbrev pub failure : Option ℕ → Exn → Value → String
  failure row_num e sku = row_prefix row_num (
      String.◌++◌ "Ошибка обработки товара "
        (String.◌++◌ (py.str sku) (String.◌++◌ ": " (py.exn_text e))))

  -- the answer of `_process_product_record`, after the `try` block
  abbrev pub reported : Option ℕ → Value → Result (Unit {0}) × Db → Result (Bool × List String) × Db
  reported row_num entry (ok _, db) = (ok (true, []), db)
  reported row_num entry (err e, db) = elim (get_field "sku" (text "N/A") entry) [
    | err e' ↦ (err e', db)
    | ok sku ↦ (ok (false, failure row_num e sku ∷ []), db)
  ]

  -- `_process_product_record`
  unfoldable pub process_record :
      ⦃u : Unicode⦄ → Supplier → Bool → Option ℕ → Value → Db → Result (Bool × List String) × Db
  unfolding store_entry
  process_record supplier update_existing row_num entry db = elim (validate row_num entry) [
    | err e ↦ (err e, db)
    | ok errors ↦
        if is_nil errors
        then reported row_num entry (store_entry supplier update_existing entry db)
        else (ok (false, errors), db)
  ]
