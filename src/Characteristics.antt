-- ===== src/Characteristics.antt =====
-- The characteristics of a product in a record of a price list: the end of
-- `_process_product_record` of `ProductViewSet` in orders/backend/views.py, which reads three forms.
pub mod Parsing
use python_diplom.Base.{
  ℕ, String, Bool, not, ◌&&◌, Option, none, some, List, [], ◌∷◌, ◌++◌, find, str_eq, ◌==◌,
  if◌then◌else◌,
}
use python_diplom.Exn.{Result, ok, err}
use python_diplom.Text.{Unicode, is_empty}
use python_diplom.Text.Split.{cut, split_on, strip}
use python_diplom.Table.{insert, update}
use python_diplom.Models.{
  Db, Attribute, ProductAttribute, product_model, category_model, attribute_model, value_model,
}
use python_diplom.Python.{
  Value, text, array, dict, Items, nil, cons, Fields, end, field, find_field, Python, truthy,
  char_field,
}

-- `Attribute.objects.get_or_create(name=name)`
unfoldable pub attribute_named : String → Db → Attribute × Db
attribute_named name db = elim (find (λ a. str_eq a.name name) db.attributes.rows) [
  | some a ↦ (a, db)
  | none ↦
      (let (a, table) = insert (λ id. record { id = id; name = name }) db.attributes in
        (a, record db { attributes = table }))
]

abbrev pub is_value_of : ℕ → ℕ → ProductAttribute → Bool
is_value_of product attribute v = (v.product == product) && (v.attribute == attribute)

abbrev pub value_row : ℕ → ℕ → String → ℕ → ProductAttribute
value_row product attribute value id = record {
  id = id;
  product = product;
  attribute = attribute;
  value = value;
}

-- `ProductAttribute.objects.update_or_create(product=…, attribute=…, defaults={'value': value})`
unfoldable pub set_value : ℕ → ℕ → String → Db → Db
set_value product attribute value db =
    elim (find (is_value_of product attribute) db.product_attributes.rows) [
      | some v ↦ record db {
        product_attributes = update (record v { value = value }) db.product_attributes;
      }
      | none ↦ record db {
        product_attributes = (insert (value_row product attribute value) db.product_attributes).1;
      }
    ]

-- `if name and value` on the two sides of a pair
abbrev pub pair_if : String → String → List (Value × String) → List (Value × String)
pair_if name value rest =
    if not (is_empty name) && not (is_empty value) then (text name, value) ∷ rest else rest

module _ ⦃u : Unicode⦄ where
  -- the text form, `цвет:красный;размер:42`
  abbrev pub text_pair : String × Option String → List (Value × String) → List (Value × String)
  text_pair (front, none) rest = rest
  text_pair (front, some back) rest = pair_if (strip front) (strip back) rest

  abbrev pub text_pairs : List String → List (Value × String)
  text_pairs [] = []
  text_pairs (part ∷ parts) = text_pair (cut b':' part) (text_pairs parts)

module _ ⦃py : Python⦄ where
  -- the form of a dictionary
  abbrev pub dict_pairs : Fields → List (Value × String)
  dict_pairs end = []
  dict_pairs (field name v rest) =
      let pairs = dict_pairs rest in
      if not (is_empty name) && truthy v then (text name, py.str v) ∷ pairs else pairs

  abbrev pub list_pair : Option Value → Option Value → List (Value × String)
  list_pair (some name) (some v) = (name, py.str v) ∷ []
  list_pair _ _ = []

  -- the form of a list of dictionaries with the keys `name` and `value`
  abbrev pub list_pairs : Items → List (Value × String)
  list_pairs nil = []
  list_pairs (cons (dict fs) rest) =
      list_pair (find_field "name" fs) (find_field "value" fs) ++ list_pairs rest
  list_pairs (cons v rest) = list_pairs rest

  -- The characteristics of a record, in the order in which they are stored.
  unfoldable pub attribute_pairs : ⦃u : Unicode⦄ → Value → List (Value × String)
  attribute_pairs (text s) = text_pairs (split_on b';' s)
  attribute_pairs (dict fs) = dict_pairs fs
  attribute_pairs (array vs) = list_pairs vs
  attribute_pairs v = []

  -- the loops over the characteristics
  unfoldable pub set_values : ℕ → List (Value × String) → Db → Result (Unit {0}) × Db
  set_values product [] db = (ok tt, db)
  set_values product ((name, value) ∷ rest) db = elim (char_field name) [
    | err e ↦ (err e, db)
    | ok name ↦
        (let (a, db₁) = attribute_named name db in
          set_values product rest (set_value product a.id value db₁))
  ]
