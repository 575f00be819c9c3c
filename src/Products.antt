-- ===== src/Products.antt =====
-- The products of the API: `ProductSerializer.create` and `update` in orders/backend/serializers.py
-- and the deletion of a row of `Product` in orders/backend/models.py. The data has passed the checks
-- of the serializer, as `is_valid` leaves it: the keys are there, and the number of a product is not
-- in use.
pub mod Updates
pub mod Values
use python_diplom.Base.{
  ℕ, String, Bool, true, false, not, ◌||◌, Option, none, some, List, [], ◌∷◌, keep, any, find, map,
  ◌==◌, or_default, is_some, if◌then◌else◌,
}
use python_diplom.Base.Int.{ℤ}
use python_diplom.Exn.{Result, ok, err, integrity_error, protected_error}
use python_diplom.Table.{insert, update, delete, get}
use python_diplom.Models.{
  Db, User, Product, ProductImage, ProductAttribute, FileField, is_supplier, supplier_profile,
  product_model, image_model, value_model,
}
use python_diplom.Action.{Action, Response}
use python_diplom.Characteristics.{is_value_of, value_row}
use python_diplom.Uploads.{Storage, product_queryset, get_product}

-- The validated fields of a new product, and those of a PUT or a PATCH; a field that is not sent is
-- `none`. An entry of `attributes` is the key of a characteristic with its value.
pub record NewProduct : Type 0 where
  pub supplier : ℕ
  pub category : ℕ
  pub name : String
  pub sku : String
  pub price : ℤ
  pub description : Option String
  pub cost_price : Option ℤ
  pub stock_quantity : Option ℕ
  pub min_order_quantity : Option ℕ
  pub unit : Option String
  pub is_active : Option Bool
  pub image : FileField
  pub image_thumbnail : FileField
  pub image_small : FileField
  pub image_medium : FileField
  pub image_large : FileField
  pub attributes : Option (List (ℕ × String))

pub record ProductPatch : Type 0 where
  pub supplier : Option ℕ
  pub category : Option ℕ
  pub name : Option String
  pub sku : Option String
  pub price : Option ℤ
  pub description : Option String
  pub cost_price : Option (Option ℤ)
  pub stock_quantity : Option ℕ
  pub min_order_quantity : Option ℕ
  pub unit : Option String
  pub is_active : Option Bool
  pub image : Option FileField
  pub image_thumbnail : Option FileField
  pub image_small : Option FileField
  pub image_medium : Option FileField
  pub image_large : Option FileField
  pub attributes : Option (List (ℕ × String))

-- `Product.objects.create(**validated_data)`
abbrev pub new_product : NewProduct → ℕ → Product
new_product d id = record {
  id = id;
  supplier = d.supplier;
  category = d.category;
  name = d.name;
  sku = d.sku;
  description = or_default "" d.description;
  price = d.price;
  cost_price = d.cost_price;
  stock_quantity = or_default 0 d.stock_quantity;
  min_order_quantity = or_default 1 d.min_order_quantity;
  unit = or_default "шт" d.unit;
  is_active = or_default true d.is_active;
  image = d.image;
  image_thumbnail = d.image_thumbnail;
  image_small = d.image_small;
  image_medium = d.image_medium;
  image_large = d.image_large;
}

-- the `setattr` loop of `update`
abbrev pub patched : ProductPatch → Product → Product
patched d p = record {
  id = p.id;
  supplier = or_default p.supplier d.supplier;
  category = or_default p.category d.category;
  name = or_default p.name d.name;
  sku = or_default p.sku d.sku;
  description = or_default p.description d.description;
  price = or_default p.price d.price;
  cost_price = or_default p.cost_price d.cost_price;
  stock_quantity = or_default p.stock_quantity d.stock_quantity;
  min_order_quantity = or_default p.min_order_quantity d.min_order_quantity;
  unit = or_default p.unit d.unit;
  is_active = or_default p.is_active d.is_active;
  image = or_default p.image d.image;
  image_thumbnail = or_default p.image_thumbnail d.image_thumbnail;
  image_small = or_default p.image_small d.image_small;
  image_medium = or_default p.image_medium d.image_medium;
  image_large = or_default p.image_large d.image_large;
}

-- `ProductAttribute.objects.create(…)` for each entry; `unique_together` refuses a second value of one
-- characteristic.
unfoldable pub add_values : ℕ → List (ℕ × String) → Action (Unit {0})
add_values product [] db = (ok tt, db)
add_values product ((attribute, value) ∷ rest) db =
    elim (find (is_value_of product attribute) db.product_attributes.rows) [
      | some v ↦ (err integrity_error, db)
      | none ↦ add_values product rest (record db {
        product_attributes = (insert (value_row product attribute value) db.product_attributes).1;
      })
    ]

abbrev pub given_back : Product → Result (Unit {0}) × Db → Result Product × Db
given_back p (ok x, db) = (ok p, db)
given_back p (err e, db) = (err e, db)

-- `ProductSerializer.create`
unfoldable pub create : NewProduct → Action Product
unfolding add_values
create d db =
    let (p, table) = insert (new_product d) db.products in
    given_back p (add_values p.id (or_default [] d.attributes) (record db { products = table }))

-- `instance.attributes.all().delete()`
abbrev pub clear_values : ℕ → Db → Db
clear_values product db = record db {
  product_attributes = delete (λ v. v.product == product) db.product_attributes;
}

-- `ProductSerializer.update`
unfoldable pub update_product : Product → ProductPatch → Action Product
unfolding add_values
update_product instance_ d db =
    let p = patched d instance_ in
    let saved = record db { products = update p db.products } in
    elim d.attributes [
      | none ↦ (ok p, saved)
      | some pairs ↦ given_back p (add_values p.id pairs (clear_values p.id saved))
    ]

-- The collector of `delete`: order items protect their product, its pictures and values go with it.
unfoldable pub delete_product : Product → Action (Unit {0})
delete_product p db =
    if any (λ i. i.product == p.id) db.items.rows then (err protected_error, db) else (
      ok tt,
      record db {
        products = delete (λ q. q.id == p.id) db.products;
        images = delete (λ i. i.product == p.id) db.images;
        product_attributes = delete (λ v. v.product == p.id) db.product_attributes;
      },
    )
