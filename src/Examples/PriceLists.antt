-- ===== src/Examples/PriceLists.antt =====
-- Examples for the theorems on the import of price lists.
use python_diplom.Integrity.{IsLinked}
use python_diplom.Import.Links.{import_products-IsLinked}
use python_diplom.Examples.Deletions.{shop-IsLinked}
use python_diplom.Base.{
  All, String, ◌≡◌, refl, true, none, some, [], ◌∷◌, inl, inr, str_eq, if◌then◌else◌, arith, false,
  List, ◌++◌,
}
use python_diplom.Examples.Values.{toy_python}
use python_diplom.RecordCheck.{required_error, price_errors, quantity_errors, cost_errors, validate}
use python_diplom.PriceList.{
  store_entry, store_in, store_product, stored_of, defaults_of, cost_of, process_record,
  category_named,
}
use python_diplom.Base.Int.{pos}
use python_diplom.Exn.{Exn, ok, err, value_error, invalid_operation}
use python_diplom.Models.{Db, User, UserType, Supplier}
use python_diplom.Python.{
  text, array, dict, Items, nil, cons, Fields, end, field, truthy, has_key, item, get_field,
  char_field, positive_field,
}
use python_diplom.Characteristics.{attribute_pairs, set_values, attribute_named, set_value}
use python_diplom.Characteristics.Parsing.{attribute_pairs-written}
use python_diplom.PriceList.Storing.{new_record_stored}
use python_diplom.PriceList.Catalogue.{IsCatalogue}
use python_diplom.PriceList.Ownership.{IsOwned, update_takes_product}
use python_diplom.FileFormats.{Parsers, ImportRequest, records, read_file, detect_format, parse}
use python_diplom.Import.{import_products}
use python_diplom.Import.Reports.{OutcomeIsRight, import_products-OutcomeIsRight}
use python_diplom.Import.Additions.{import_products-adds}
use python_diplom.Import.Catalogue.{import_products-IsCatalogue}
use python_diplom.Import.Prices.{bad_price_stops}
use python_diplom.Examples.{ascii, shop, account, boris_profile, tea, Product, boris}

abbrev tea_record : Fields
tea_record = field "sku" (text "T-1") (
    field "name" (text "black tea") (
      field "price" (text "3.00")
        (field "stock_quantity" (text "40") (field "attributes" (text "sort:black") end))))

abbrev dear_record : Fields
dear_record = field "sku" (text "T-2") (
    field "name" (text "green tea")
      (field "price" (text "dear") (field "stock_quantity" (text "40") end)))

abbrev good_file : Items
good_file = cons (dict tea_record) nil

abbrev dear_file : Items
dear_file = cons (dict tea_record) (cons (dict dear_record) nil)

-- Parsers that know two files.
instance abbrev toy_parsers : Parsers
toy_parsers = record {
  Bytes = String;
  decode = λ bytes. some bytes;
  csv_rows = λ content. ok nil;
  json_loads = λ content. ok (array (if str_eq content "good" then good_file else dear_file));
  safe_load = λ content. err value_error;
}

abbrev upload : String → ImportRequest
upload content = record {
  file = some (record { name = "prices.json"; content = content });
  update_existing = some true;
  format = none;
}

-- Galina sells tea too.
abbrev galina : User
galina = account 3 "galina" UserType.supplier none

abbrev galina_profile : Supplier
galina_profile = record boris_profile { id = 6; user = 3; company_name = "Galina"; tax_number = "" }

abbrev market : Db
market = record shop {
  users = record { rows = galina ∷ []; next_id = 4 };
  suppliers = record { rows = boris_profile ∷ galina_profile ∷ []; next_id = 7 };
}

market-IsCatalogue : IsCatalogue market
market-IsCatalogue = record {
  products = record {
    keyed = record { below = (omega arith, tt); distinct = (tt, tt) };
    unique = (tt, tt);
  };
  categories = record {
    keyed = record { below = (omega arith, tt); distinct = (tt, tt) };
    unique = (tt, tt);
  };
  attributes = record { keyed = record { below = tt; distinct = tt }; unique = tt };
  values = record { keyed = record { below = tt; distinct = tt }; unique = tt };
}

good_read :
    read_file
      (detect_format "prices.json" "auto")
      (record { name = "prices.json"; content = "good" })
    ≡ records good_file
unfolding read_file detect_format parse
good_read = refl

dear_read :
    read_file
      (detect_format "prices.json" "auto")
      (record { name = "prices.json"; content = "dear" })
    ≡ records dear_file
unfolding read_file detect_format parse
dear_read = refl

import_products-OutcomeIsRight_example :
    OutcomeIsRight 1 market (import_products galina (upload "good") market)
import_products-OutcomeIsRight_example =
    import_products-OutcomeIsRight galina (upload "good")
      (record { name = "prices.json"; content = "good" }) good_file market refl refl good_read

import_products-IsCatalogue_example : IsCatalogue (import_products galina (upload "good") market).1
import_products-IsCatalogue_example =
    import_products-IsCatalogue galina (upload "good") market market-IsCatalogue

import_products-IsLinked_example : IsLinked (import_products boris (upload "good") shop).1
import_products-IsLinked_example = import_products-IsLinked boris (upload "good") shop shop-IsLinked

abbrev additions : ImportRequest
additions = record (upload "good") { update_existing = some false }

import_products-adds_example :
    (more : List Product) × ((import_products galina additions market).1.products.rows
      ≡ market.products.rows ++ more)
    × All (λ p. p.supplier ≡ 6) more
import_products-adds_example = import_products-adds galina additions galina_profile market refl refl

bad_price_stops_example :
    (e : Exn) × (import_products galina (upload "dear") market ≡ (err e, market))
bad_price_stops_example =
    bad_price_stops galina (upload "dear") (record { name = "prices.json"; content = "dear" })
      dear_file dear_record galina_profile market refl refl dear_read refl refl
      (record { price = "dear"; raised = invalid_operation; given = refl; unread = refl })
      (inr (inl refl))

taken :
    process_record galina_profile true none (dict tea_record) market
    ≡ (ok (true, []), (process_record galina_profile true none (dict tea_record) market).1)
unfolding process_record store_entry store_in store_product stored_of defaults_of cost_of validate
    required_error price_errors quantity_errors cost_errors truthy has_key item get_field char_field
    positive_field category_named attribute_named attribute_pairs set_values set_value
taken = refl

-- The tea was the product of Boris.
update_takes_product_example :
    IsOwned 7 galina_profile "T-1"
      (process_record galina_profile true none (dict tea_record) market).1
unfolding item char_field
update_takes_product_example =
    update_takes_product galina_profile "T-1" tea none (dict tea_record) [] market
      (process_record galina_profile true none (dict tea_record) market).1 refl refl taken

attribute_pairs-written_example :
    attribute_pairs (text "sort:black;weight:100 g")
    ≡ (text "sort", "black") ∷ (text "weight", "100 g") ∷ []
attribute_pairs-written_example =
    attribute_pairs-written (("sort", "black") ∷ ("weight", "100 g") ∷ []) (
      record {
        name_plain = refl;
        name_whole = refl;
        value_whole = refl;
        name_stripped = refl;
        value_stripped = refl;
        name_given = refl;
        value_given = refl;
      },
      (
        record {
          name_plain = refl;
          name_whole = refl;
          value_whole = refl;
          name_stripped = refl;
          value_stripped = refl;
          name_given = refl;
          value_given = refl;
        },
        tt,
      ),
    )

abbrev plain_record : Fields
plain_record = field "sku" (text "T-3") (
    field "name" (text "white tea")
      (field "price" (text "3.00") (field "stock_quantity" (text "40") end)))

new_record_stored_example :
    let (answer, after) = process_record galina_profile true none (dict plain_record) market in
    (answer ≡ ok (true, []))
    × (after.products.rows
        ≡ tea
          ∷ record {
            id = 8;
            supplier = 6;
            category = (category_named "Без категории" market).0.id;
            name = "white tea";
            sku = "T-3";
            description = "";
            price = pos 300;
            cost_price = none;
            stock_quantity = 40;
            min_order_quantity = 1;
            unit = "шт";
            is_active = true;
            image = none;
            image_thumbnail = none;
            image_small = none;
            image_medium = none;
            image_large = none;
          }
          ∷ [])
new_record_stored_example =
    new_record_stored plain_record "T-3" "white tea" (pos 300) 40
      (record {
        price = "3.00";
        decimal = pos 300;
        quantity = "40";
        sku_given = refl;
        name_given = refl;
        price_given = refl;
        quantity_given = refl;
        no_cost = refl;
        no_category = refl;
        no_description = refl;
        no_minimum = refl;
        no_unit = refl;
        no_activity = refl;
        no_attributes = refl;
        sku_full = refl;
        name_full = refl;
        price_full = refl;
        quantity_full = refl;
        price_read = refl;
        price_good = refl;
        price_stored = refl;
        quantity_read = refl;
        one_read = refl;
        true_lower = refl;
      })
      galina_profile true none market refl
