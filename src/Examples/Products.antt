-- ===== src/Examples/Products.antt =====
-- Examples for the theorems on the products of the API.
use python_diplom.Base.{ℕ, String, ◌≡◌, ◌≢◌, refl, Option, none, some, List, [], ◌∷◌}
use python_diplom.Base.Int.{pos}
use python_diplom.Exn.{ok, err, integrity_error}
use python_diplom.Table.{update}
use python_diplom.Models.{Db, product_model}
use python_diplom.Uploads.{Storage, get_product, product_queryset}
use python_diplom.Products.{ProductPatch, patched, update_product}
use python_diplom.Products.Values.{values_of}
use python_diplom.Products.Updates.{update_product-values, update_product-repeated}
use python_diplom.Examples.{shop, anna, tea}

instance abbrev folders : Storage
folders = record { store = λ folder f. f.name; url = λ name. name }

abbrev patch : Option (List (ℕ × String)) → ProductPatch
patch attributes = record {
  supplier = none;
  category = none;
  name = some "free tea";
  sku = none;
  price = some (pos 1);
  description = none;
  cost_price = none;
  stock_quantity = none;
  min_order_quantity = none;
  unit = none;
  is_active = none;
  image = none;
  image_thumbnail = none;
  image_small = none;
  image_medium = none;
  image_large = none;
  attributes = attributes;
}

-- The tea has a sort, and another product too.
abbrev sorted : Db
sorted = record shop {
  attributes = record {
    rows = record { id = 1; name = "sort" } ∷ record { id = 2; name = "weight" } ∷ [];
    next_id = 3;
  };
  product_attributes = record {
    rows =
        record { id = 1; product = 7; attribute = 1; value = "green" }
        ∷ record { id = 2; product = 8; attribute = 1; value = "arabica" }
        ∷ [];
    next_id = 3;
  };
}

abbrev new_values : List (ℕ × String)
new_values = (1, "black") ∷ (2, "100 g") ∷ []

abbrev double_values : List (ℕ × String)
double_values = (1, "black") ∷ (1, "white") ∷ []

update_product-values_example :
    ((update_product tea (patch (some new_values)) sorted).0
      ≡ ok (patched (patch (some new_values)) tea))
    × (values_of 7 (update_product tea (patch (some new_values)) sorted).1 ≡ new_values)
    × ((other : ℕ)
        → other ≢ 7
        → values_of other (update_product tea (patch (some new_values)) sorted).1
          ≡ values_of other sorted)
update_product-values_example =
    update_product-values tea (patch (some new_values)) new_values sorted refl refl

-- The sort that the tea had is gone.
update_product-repeated_example :
    ((update_product tea (patch (some double_values)) sorted).0 ≡ err integrity_error)
    × (values_of 7 (update_product tea (patch (some double_values)) sorted).1 ≡ (1, "black") ∷ [])
    × ((update_product tea (patch (some double_values)) sorted).1.products
        ≡ update (patched (patch (some double_values)) tea) sorted.products)
update_product-repeated_example =
    update_product-repeated tea (patch (some double_values)) double_values sorted refl refl

anna_sees_tea : get_product anna 7 shop ≡ ok tea
unfolding get_product product_queryset
anna_sees_tea = refl
