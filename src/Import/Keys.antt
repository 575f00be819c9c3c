-- ===== src/Import/Keys.antt =====
-- What an import keeps: the tables that it does not write, and the keys of those that it does.
use python_diplom.Base.{ap, ℕ, suc, Bool, List, ◌≡◌, if◌then◌else◌, some, none, String, ◌∙◌}
use python_diplom.Models.{
  Product, Db, Supplier, User, Order, OrderItem, ProductImage, PriceUpdateLog, Task,
}
use python_diplom.PriceList.Writes.{apart-category_named, apart-attribute_named, apart-set_value}
use python_diplom.Exn.{Result, ok, err}
use python_diplom.Text.{Unicode}
use python_diplom.Table.{Table}
use python_diplom.Python.{Python, Items, nil, cons}
use python_diplom.PriceList.{process_record}
use python_diplom.PriceList.Frame.{Keeps, process_record-keeps}
use python_diplom.Import.{Tally, import_items, next_record, counted}

module _ (Q : Db → Type 0) where
  next_record-keeps :
      (next : Tally → Db → Result Tally × Db) (t : Tally) (r : Result (Bool × List String))
      (db : Db)
      → ((t : Tally) (db : Db) → Q db → Q (next t db).1)
      → Q db
      → Q (next_record next t (r, db)).1
  next_record-keeps next t (err e) db step q = q
  next_record-keeps next t (ok outcome) db step q = step (counted outcome t) db q

module _ ⦃u : Unicode⦄ ⦃py : Python⦄ (s : Supplier) (upd : Bool) (Q : Db → Type 0)
    (k : Keeps s upd Q) where
  pub import_items-keeps :
      (numbered : Bool) (i : ℕ) (items : Items) (t : Tally) (db : Db)
      → Q db
      → Q (import_items s upd numbered i items t db).1
  unfolding import_items
  import_items-keeps numbered i nil t db q = q
  import_items-keeps numbered i (cons entry rest) t db q =
      let row = if numbered then some i else none in
      next_record-keeps Q (import_items s upd numbered (suc i) rest) t
        (process_record s upd row entry db).0 (process_record s upd row entry db).1
        (λ t db q. import_items-keeps numbered (suc i) rest t db q)
        (process_record-keeps s upd Q k row entry db q)

-- The tables that no record of a price list writes, and the messages sent.
abbrev pub others :
    Db
    → Table User
      × Table Supplier
      × Table ProductImage
      × Table Order
      × Table OrderItem
      × Table PriceUpdateLog
      × List Task
others db = (db.users, db.suppliers, db.images, db.orders, db.items, db.logs, db.queue)

abbrev others_of :
    Table User
      × Table Supplier
      × Table Product
      × Table ProductImage
      × Table Order
      × Table OrderItem
      × Table PriceUpdateLog
      × List Task
    → Table User
      × Table Supplier
      × Table ProductImage
      × Table Order
      × Table OrderItem
      × Table PriceUpdateLog
      × List Task
others_of (u, s, p, i, o, t, l, q) = (u, s, i, o, t, l, q)

pub others-Keeps :
    (s : Supplier) (upd : Bool) (before : Db) → Keeps s upd (λ db. others db ≡ others before)
others-Keeps s upd before = record {
  keeps_category = λ name db q. ap others_of (apart-category_named name db) ∙ q;
  keeps_attribute = λ name db q. ap others_of (apart-attribute_named name db) ∙ q;
  keeps_value = λ p a v db hp ha q. ap others_of (apart-set_value p a v db) ∙ q;
  keeps_add = λ p db h own kind q. q;
  keeps_put = λ p old sku db h e e' may own kind q. q;
}
