-- ===== src/Import/Additions.antt =====
-- What an import that may not update does to the products.
use python_diplom.Base.{
  some-injective, ℕ, true, false, some, or_default, List, [], ◌∷◌, ◌++◌, All, All-append, ◌≡◌, sym,
  ap, ◌∙◌,
}
use mathlib.Core.List.{append_assoc, append-nil}
use mathlib.Core.Path.{subst}
use python_diplom.Text.{Unicode}
use python_diplom.Table.{Table, insert}
use python_diplom.Models.{
  Db, User, Supplier, Product, ProductImage, Order, OrderItem, PriceUpdateLog, Task,
  supplier_profile, product_model,
}
use python_diplom.Python.{Python}
use python_diplom.Characteristics.{attribute_named, set_value}
use python_diplom.PriceList.{category_named}
use python_diplom.PriceList.Frame.{Keeps}
use python_diplom.PriceList.Writes.{
  apart-category_named, apart-attribute_named, apart-set_value, apart,
}
use python_diplom.FileFormats.{Parsers, ImportRequest}
use python_diplom.Import.{import_products}
use python_diplom.Import.Frame.{import_products-keeps}

-- The products are as before, with some of the supplier's at the end.
abbrev pub Extends : List Product → ℕ → List Product → Type 0
Extends before supplier after =
    (more : List Product) × (after ≡ before ++ more) × All (λ p. p.supplier ≡ supplier) more

Extends-add :
    (before after : List Product) (supplier : ℕ) (p : Product)
    → p.supplier ≡ supplier
    → Extends before supplier after
    → Extends before supplier (after ++ p ∷ [])
Extends-add before after supplier p own (more, e, all) = (
  more ++ p ∷ [],
  ap (λ ps. ps ++ p ∷ []) e ∙ append_assoc before more (p ∷ []),
  All-append (λ q. q.supplier ≡ supplier) more (p ∷ []) all (own, tt),
)

products_of :
    Table User
      × Table Supplier
      × Table Product
      × Table ProductImage
      × Table Order
      × Table OrderItem
      × Table PriceUpdateLog
      × List Task
    → List Product
products_of (u, s, p, i, o, t, l, q) = p.rows

Extends-apart :
    (before : List Product) (supplier : ℕ) (db db' : Db)
    → apart db' ≡ apart db
    → Extends before supplier db.products.rows
    → Extends before supplier db'.products.rows
unfolding products_of
Extends-apart before supplier db db' e q =
    subst (Extends before supplier) (sym (ap products_of e)) q

Extends-Keeps :
    (before : List Product) (s : Supplier)
    → Keeps s false (λ db. Extends before s.id db.products.rows)
unfolding insert
Extends-Keeps before s = record {
  keeps_category = λ name db q.
      Extends-apart before s.id db (category_named name db).1 (apart-category_named name db) q;
  keeps_attribute = λ name db q.
      Extends-apart before s.id db (attribute_named name db).1 (apart-attribute_named name db) q;
  keeps_value = λ p a v db hp ha q.
      Extends-apart before s.id db (set_value p a v db) (apart-set_value p a v db) q;
  keeps_add = λ p db h own kind q. Extends-add before db.products.rows s.id _ own q;
  keeps_put = λ p old sku db h e e' may own kind q. absurd (cc may);
}

module _ ⦃u : Unicode⦄ ⦃py : Python⦄ ⦃ps : Parsers⦄ where
  -- An import with `update_existing=false` leaves every stored product as it is: the products
  -- afterwards are those before, followed by some of the importing supplier.
  pub import_products-adds :
      (user : User) (request : ImportRequest) (s : Supplier) (db : Db)
      → request.update_existing ≡ some false
      → supplier_profile user.id db ≡ some s
      → (more : List Product) × ((import_products user request db).1.products.rows
          ≡ db.products.rows ++ more)
        × All (λ p. p.supplier ≡ s.id) more
  import_products-adds user request s db off profile =
      import_products-keeps (λ db'. Extends db.products.rows s.id db'.products.rows) user request db
        (λ s' found. (
          subst
              (λ t.
                Keeps t (or_default true request.update_existing)
                  (λ db'. Extends db.products.rows s.id db'.products.rows))
              (some-injective (sym profile ∙ found)) (rw off (Extends-Keeps db.products.rows s)),
          (λ name t db' q. q),
        ))
        ([], sym (append-nil db.products.rows), tt)
