-- ===== src/Integrity/Requests.antt =====
-- Sequences of the requests that delete rows.
use python_diplom.Base.{ℕ, List, [], ◌∷◌, inl, inr}
use python_diplom.Exn.{Result, ok, err, Result-cases}
use python_diplom.Models.{
  Db, User, user_model, supplier_model, product_model, image_model, value_model, order_model,
  item_model, log_model,
}
use python_diplom.Uploads.{Storage, found_in, get_product}
use python_diplom.OrderViews
use python_diplom.OrderViews.{get_object}
use python_diplom.Products.{delete_product}
use python_diplom.ProductViews
use python_diplom.SupplierViews
use python_diplom.SupplierViews.{delete_supplier}
use python_diplom.UserViews
use python_diplom.UserViews.{delete_user, in_profile}
use python_diplom.Integrity.{IsLinked}
use python_diplom.Integrity.Deletions.{
  delete_product-IsLinked, delete_supplier-IsLinked, delete_user-IsLinked, delete_order-IsLinked,
}

-- The requests that delete a row.
pub data Deletion : Type 0 where
  of_product of_order of_user of_supplier : User → ℕ → Deletion

module _ ⦃st : Storage⦄ where
  abbrev pub after : Deletion → Db → Db
  after (of_product caller pk) db = (ProductViews.destroy caller pk db).1
  after (of_order caller pk) db = (OrderViews.destroy caller pk db).1
  after (of_user caller pk) db = (UserViews.destroy caller pk db).1
  after (of_supplier caller pk) db = (SupplierViews.destroy_supplier caller pk db).1

  abbrev pub after_all : List Deletion → Db → Db
  after_all [] db = db
  after_all (d ∷ ds) db = after_all ds (after d db)

  product_removed :
      (r : Result (Unit {0}) × Db) → IsLinked r.1 → IsLinked (ProductViews.removed r).1
  product_removed (ok x, db) l = l
  product_removed (err e, db) l = l

  user_removed : (r : Result (Unit {0}) × Db) → IsLinked r.1 → IsLinked (UserViews.removed r).1
  user_removed (ok x, db) l = l
  user_removed (err e, db) l = l

  supplier_removed :
      (r : Result (Unit {0}) × Db) → IsLinked r.1 → IsLinked (SupplierViews.removed r).1
  supplier_removed (ok x, db) l = l
  supplier_removed (err e, db) l = l

  after-IsLinked : (d : Deletion) (db : Db) → IsLinked db → IsLinked (after d db)
  unfolding ProductViews.destroy UserViews.destroy SupplierViews.destroy_supplier
  after-IsLinked (of_order caller pk) db l = delete_order-IsLinked caller pk db l
  after-IsLinked (of_product caller pk) db l = elim (Result-cases (get_product caller pk db)) [
    | inr (e, h) ↦ rw (h, after, ProductViews.destroy) l
    | inl (p, h) ↦
        rw (h, after, ProductViews.destroy)
          (product_removed (delete_product p db) (delete_product-IsLinked p db l))
  ]
  after-IsLinked (of_user caller pk) db l =
      elim (Result-cases (found_in (λ u. u.id) pk db.users.rows)) [
        | inr (e, h) ↦ rw (h, after, UserViews.destroy) l
        | inl (u, h) ↦
            rw (h, after, UserViews.destroy)
              (user_removed (delete_user u db) (delete_user-IsLinked u db l))
      ]
  after-IsLinked (of_supplier caller pk) db l =
      elim (Result-cases (found_in (λ s. s.id) pk db.suppliers.rows)) [
        | inr (e, h) ↦ rw (h, after, SupplierViews.destroy_supplier) l
        | inl (s, h) ↦
            rw (h, after, SupplierViews.destroy_supplier)
              (supplier_removed (delete_supplier s db) (delete_supplier-IsLinked s db l))
      ]

  -- Whatever rows are deleted through the viewsets of products, orders, users and suppliers, by
  -- whomever and in whatever order, also where a deletion is refused: if every foreign key found its
  -- row, and no user had two profiles, this is so afterwards.
  pub after_all-IsLinked : (ds : List Deletion) (db : Db) → IsLinked db → IsLinked (after_all ds db)
  after_all-IsLinked [] db l = l
  after_all-IsLinked (d ∷ ds) db l = after_all-IsLinked ds (after d db) (after-IsLinked d db l)
