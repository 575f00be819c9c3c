-- ===== src/PriceList/Storing.antt =====
-- What a plain record of a price list stores.
use python_diplom.Base.{
  ap, ◌∙◌, ℕ, String, Bool, true, false, Option, none, some, [], ◌∷◌, ◌++◌, find, str_eq, ◌≡◌, refl,
}
use python_diplom.PriceList.Ownership.{products-category_named}
use python_diplom.PriceList.{
  Stored, fill, no_product, add_product, after_stored, Defaults, category_named, stored_of,
  store_product, defaults_of, cost_of, store_in, store_entry, process_record,
}
use python_diplom.Base.Int.{ℤ, pos}
use python_diplom.Exn.{ok}
use python_diplom.Text.{Unicode, is_empty}
use python_diplom.Table.{insert}
use python_diplom.Models.{Db, Product, Supplier, Category}
use python_diplom.Python.{
  Python, Fields, text, whole, dict, find_field, has_key, item, get_field, char_field,
  positive_field, truthy,
}
use python_diplom.RecordCheck.{validate, required_error, price_errors, quantity_errors, cost_errors}
use python_diplom.Characteristics.{attribute_pairs, set_values}

-- The four fields that are asked for, as texts that can be read, and no other field.
pub record IsPlain ⦃u : Unicode⦄ ⦃py : Python⦄ (fs : Fields) (sku name : String) (amount : ℤ)
    (stock : ℕ) : Type 0 where
  pub price : String
  pub decimal : py.Decimal
  pub quantity : String
  pub sku_given : find_field "sku" fs ≡ some (text sku)
  pub name_given : find_field "name" fs ≡ some (text name)
  pub price_given : find_field "price" fs ≡ some (text price)
  pub quantity_given : find_field "stock_quantity" fs ≡ some (text quantity)
  pub no_cost : find_field "cost_price" fs ≡ none
  pub no_category : find_field "category" fs ≡ none
  pub no_description : find_field "description" fs ≡ none
  pub no_minimum : find_field "min_order_quantity" fs ≡ none
  pub no_unit : find_field "unit" fs ≡ none
  pub no_activity : find_field "is_active" fs ≡ none
  pub no_attributes : find_field "attributes" fs ≡ none
  pub sku_full : is_empty sku ≡ false
  pub name_full : is_empty name ≡ false
  pub price_full : is_empty price ≡ false
  pub quantity_full : is_empty quantity ≡ false
  pub price_read : py.decimal price ≡ ok decimal
  pub price_good : py.is_positive decimal ≡ ok true
  pub price_stored : py.column decimal ≡ ok amount
  pub quantity_read : py.int (text quantity) ≡ ok (pos stock)
  pub one_read : py.int (whole (pos 1)) ≡ ok (pos 1)
  pub true_lower : u.lower "true" ≡ "true"

module _ ⦃u : Unicode⦄ ⦃py : Python⦄ (fs : Fields) (sku name : String) (amount : ℤ) (stock : ℕ)
    (h : IsPlain fs sku name amount stock) where
  required :
      (k s : String)
      → find_field k fs ≡ some (text s)
      → is_empty s ≡ false
      → required_error k (dict fs) ≡ ok []
  unfolding required_error has_key item truthy
  required k s given full = rw (required_error, given, full) refl

  good_price : price_errors (dict fs) ≡ ok []
  unfolding price_errors has_key item
  good_price =
      rw (price_errors, h.price_given, py.str_text h.price, h.price_read, h.price_good) refl

  good_quantity : quantity_errors (dict fs) ≡ ok []
  unfolding quantity_errors has_key item
  good_quantity = rw (quantity_errors, h.quantity_given, h.quantity_read) refl

  good_cost : cost_errors (dict fs) ≡ ok []
  unfolding cost_errors has_key
  good_cost = rw (cost_errors, h.no_cost) refl

  good_record : (row_num : Option ℕ) → validate row_num (dict fs) ≡ ok []
  unfolding validate
  good_record row_num =
      rw
        (
          validate,
          required "sku" sku h.sku_given h.sku_full,
          required "name" name h.name_given h.name_full,
          required "price" h.price h.price_given h.price_full,
          required "stock_quantity" h.quantity h.quantity_given h.quantity_full,
          good_price,
          good_quantity,
          good_cost,
        )
        refl

  abbrev plain_defaults : Defaults
  plain_defaults = record {
    name = text name;
    description = text "";
    price = h.decimal;
    stock_quantity = pos stock;
    min_order_quantity = pos 1;
    unit = text "шт";
    is_active = true;
    cost_price = none;
  }

  read_defaults : defaults_of (dict fs) ≡ ok plain_defaults
  unfolding defaults_of cost_of item get_field has_key
  read_defaults =
      rw
        (
          defaults_of,
          cost_of,
          h.name_given,
          h.no_description,
          h.price_given,
          py.str_text h.price,
          h.price_read,
          h.quantity_given,
          h.quantity_read,
          h.no_minimum,
          h.one_read,
          h.no_unit,
          h.no_activity,
          py.str_text "true",
          h.true_lower,
          h.no_cost,
        )
        refl

  abbrev plain_stored : Stored
  plain_stored = record {
    name = name;
    description = "";
    price = amount;
    cost_price = none;
    stock_quantity = stock;
    min_order_quantity = 1;
    unit = "шт";
    is_active = true;
  }

  read_columns : stored_of none plain_defaults ≡ ok plain_stored
  unfolding stored_of char_field positive_field
  read_columns =
      rw (stored_of, h.price_stored, py.str_text name, py.str_text "", py.str_text "шт") refl

  abbrev pub plain_product : Supplier → Category → ℕ → Product
  plain_product s category id = record (fill s category plain_stored (no_product sku 0)) { id = id }

  text_stored : (t : String) → char_field (text t) ≡ ok t
  unfolding char_field
  text_stored t = ap ok (py.str_text t)

  stored_in :
      (s : Supplier) (upd : Bool) (category : Category) (db : Db)
      → find (λ p. str_eq p.sku sku) db.products.rows ≡ none
      → store_in s upd (dict fs) (category, db)
        ≡ (ok tt, add_product (fill s category plain_stored (no_product sku 0)) db)
  unfolding store_in store_product item get_field attribute_pairs set_values
  stored_in s upd category db new =
      rw
        (
          store_in,
          read_defaults,
          h.sku_given,
          text_stored sku,
          store_product,
          new,
          read_columns,
          after_stored,
          h.no_attributes,
        )
        refl

  -- A record with a number that no product has, a name, a readable positive price and a readable
  -- quantity as texts, and no other field, is reported as stored, and the products are as before
  -- with one more at the end: the supplier's, with the fields of the record and the defaults for
  -- the rest.
  pub new_record_stored :
      (s : Supplier) (upd : Bool) (row_num : Option ℕ) (db : Db)
      → find (λ p. str_eq p.sku sku) db.products.rows ≡ none
      → let (category, db₁) = category_named "Без категории" db in
        let (answer, after) = process_record s upd row_num (dict fs) db in
        (answer ≡ ok (true, []))
        × (after.products.rows
            ≡ db.products.rows ++ plain_product s category db.products.next_id ∷ [])
  unfolding process_record store_entry get_field insert
  new_record_stored s upd row_num db new =
      let (category, db₁) = category_named "Без категории" db in
      let same = products-category_named "Без категории" db in
      let call : process_record s upd row_num (dict fs) db
          ≡ (ok (true, []), add_product (fill s category plain_stored (no_product sku 0)) db₁) =
        rw
          (
            process_record,
            good_record row_num,
            store_entry,
            h.no_category,
            text_stored "Без категории",
            stored_in s upd category db₁ (rw same new),
          )
          refl in
      (
        ap (λ r. r.0) call,
        ap (λ r. r.1.products.rows) call
            ∙ ap (λ t. t.rows ++ plain_product s category t.next_id ∷ []) same,
      )
