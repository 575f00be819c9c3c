-- ===== src/PriceList/Writes.antt =====
-- What the writes of a category, a characteristic and a value leave alone.
use python_diplom.Base.{ℕ, String, Option-cases, inl, inr, List, find, str_eq, ◌≡◌, refl}
use python_diplom.Table.{Table}
use python_diplom.Models.{
  Db, User, Supplier, Product, ProductImage, Order, OrderItem, PriceUpdateLog, Task,
}
use python_diplom.Characteristics.{attribute_named, set_value, is_value_of}
use python_diplom.PriceList.{category_named}

-- The other tables, and the messages sent.
abbrev pub apart :
    Db
    → Table User
      × Table Supplier
      × Table Product
      × Table ProductImage
      × Table Order
      × Table OrderItem
      × Table PriceUpdateLog
      × List Task
apart db = (db.users, db.suppliers, db.products, db.images, db.orders, db.items, db.logs, db.queue)

pub apart-category_named : (name : String) (db : Db) → apart (category_named name db).1 ≡ apart db
unfolding category_named
apart-category_named name db =
    elim (Option-cases (find (λ c. str_eq c.name name) db.categories.rows)) [
      | inl h ↦ rw (h, category_named) refl
      | inr (c, h) ↦ rw (h, category_named) refl
    ]

pub apart-attribute_named : (name : String) (db : Db) → apart (attribute_named name db).1 ≡ apart db
unfolding attribute_named
apart-attribute_named name db =
    elim (Option-cases (find (λ a. str_eq a.name name) db.attributes.rows)) [
      | inl h ↦ rw (h, attribute_named) refl
      | inr (a, h) ↦ rw (h, attribute_named) refl
    ]

pub apart-set_value :
    (product attribute : ℕ) (value : String) (db : Db)
    → apart (set_value product attribute value db) ≡ apart db
unfolding set_value
apart-set_value product attribute value db =
    elim (Option-cases (find (is_value_of product attribute) db.product_attributes.rows)) [
      | inl h ↦ rw (h, set_value) refl
      | inr (v, h) ↦ rw (h, set_value) refl
    ]
