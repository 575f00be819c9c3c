-- ===== src/PriceList/Catalogue.antt =====
-- What the tables of a catalogue promise, by the unique columns of orders/backend/models.py, and that
-- a record of a price list keeps it without the database having to refuse a row.
use python_diplom.Base.{
  ℕ, Bool, String, Option-cases, inl, inr, find, str_eq, ◌≡◌, refl, eq_refl, true, arith, ap,
}
use python_diplom.Characteristics.{attribute_named, set_value, is_value_of}
use python_diplom.PriceList.Frame.{Keeps}
use python_diplom.Table.Unique.{HasUnique, insert-HasUnique, update-HasUnique}
use python_diplom.Models.{
  Db, Supplier, ProductAttribute, product_model, category_model, attribute_model, value_model,
  Category, Attribute,
}
use python_diplom.PriceList.{category_named}

-- the two columns of `unique_together`
abbrev pub place : ProductAttribute → ℕ × ℕ
place v = (v.product, v.attribute)

pub record IsCatalogue (db : Db) : Type 0 where
  pub products : HasUnique (λ p. p.sku) db.products
  pub categories : HasUnique (λ c. c.name) db.categories
  pub attributes : HasUnique (λ a. a.name) db.attributes
  pub values : HasUnique place db.product_attributes

same_text : (s t : String) → s ≡ t → str_eq s t ≡ true
same_text s t e = rw e (eq_refl t)

category_named-IsCatalogue :
    (name : String) (db : Db) → IsCatalogue db → IsCatalogue (category_named name db).1
unfolding category_named
category_named-IsCatalogue name db q =
    let test = λ (c : Category). str_eq c.name name in
    elim (Option-cases (find test db.categories.rows)) [
      | inr (c, h) ↦ rw (h, category_named) q
      | inl h ↦
          rw (h, category_named)
            (record {
              products = q.products;
              categories =
                  insert-HasUnique (λ c. c.name) test db.categories _ (λ n. refl)
                    (λ c e. same_text c.name name e) h q.categories;
              attributes = q.attributes;
              values = q.values;
            })
    ]

attribute_named-IsCatalogue :
    (name : String) (db : Db) → IsCatalogue db → IsCatalogue (attribute_named name db).1
unfolding attribute_named
attribute_named-IsCatalogue name db q =
    let test = λ (a : Attribute). str_eq a.name name in
    elim (Option-cases (find test db.attributes.rows)) [
      | inr (a, h) ↦ rw (h, attribute_named) q
      | inl h ↦
          rw (h, attribute_named)
            (record {
              products = q.products;
              categories = q.categories;
              attributes =
                  insert-HasUnique (λ a. a.name) test db.attributes _ (λ n. refl)
                    (λ a e. same_text a.name name e) h q.attributes;
              values = q.values;
            })
    ]

same_place :
    (product attribute : ℕ) (v : ProductAttribute)
    → place v ≡ (product, attribute)
    → is_value_of product attribute v ≡ true
same_place product attribute v e = ground (arith, ap (λ p. p.0) e, ap (λ p. p.1) e)

set_value-IsCatalogue :
    (product attribute : ℕ) (value : String) (db : Db)
    → IsCatalogue db
    → IsCatalogue (set_value product attribute value db)
unfolding set_value
set_value-IsCatalogue product attribute value db q =
    let test = is_value_of product attribute in
    elim (Option-cases (find test db.product_attributes.rows)) [
      | inr (v, h) ↦
          rw (h, set_value)
            (record {
              products = q.products;
              categories = q.categories;
              attributes = q.attributes;
              values =
                  update-HasUnique place test db.product_attributes (record v { value = value }) v h
                    refl refl q.values;
            })
      | inl h ↦
          rw (h, set_value)
            (record {
              products = q.products;
              categories = q.categories;
              attributes = q.attributes;
              values =
                  insert-HasUnique place test db.product_attributes _ (λ n. refl)
                    (λ v e. same_place product attribute v e) h q.values;
            })
    ]

pub IsCatalogue-Keeps : (s : Supplier) (upd : Bool) → Keeps s upd IsCatalogue
IsCatalogue-Keeps s upd = record {
  keeps_category = category_named-IsCatalogue;
  keeps_attribute = attribute_named-IsCatalogue;
  keeps_value = λ p a v db hp ha q. set_value-IsCatalogue p a v db q;
  keeps_add = λ p db h own kind q. record {
    products =
        insert-HasUnique (λ p. p.sku) (λ q. str_eq q.sku p.sku) db.products _ (λ n. refl)
          (λ q e. same_text q.sku p.sku e) h q.products;
    categories = q.categories;
    attributes = q.attributes;
    values = q.values;
  };
  keeps_put = λ p old sku db h e e' may own kind q. record {
    products =
        update-HasUnique (λ p. p.sku) (λ q. str_eq q.sku sku) db.products p old h e e' q.products;
    categories = q.categories;
    attributes = q.attributes;
    values = q.values;
  };
}
