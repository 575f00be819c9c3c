-- ===== src/Orders/Steps.antt =====
-- The steps of `OrderSerializer.create`, each by its cases.
use python_diplom.Base.{
  ℕ, ◌≡◌, refl, true, false, List, String, any, str_eq, Bool-cases, ◌⊎◌, inl, inr,
}
use Prim.Native.String
use python_diplom.Base.Int.{ℤ, pos}
use python_diplom.Exn.{ok, err, integrity_error, invalid_operation}
use python_diplom.Table.{insert, update}
use python_diplom.Models.{Db, Order, order_model, item_model}
use python_diplom.Action.{Action, ◌>>=◌}
use python_diplom.Orders.{
  Columns, ItemData, OrderData, save_order, add_items, insert_order, order_row, store_total, create,
}

-- The database after the order's row has been inserted.
abbrev pub with_order : ℕ → OrderData → String → ℕ → Db → Db
with_order client fields number now db = record db {
  orders = (insert (order_row client fields number now) db.orders).1;
}

module _ ⦃c : Columns⦄ where
  pub insert_order-cases :
      (client : ℕ) (fields : OrderData) (number : String) (now : ℕ) (db : Db)
      → (insert_order client fields number now db ≡ (
        ok (order_row client fields number now db.orders.next_id),
        with_order client fields number now db,
      ))
        ⊎ ((any (λ o. str_eq o.order_number number) db.orders.rows ≡ true)
            × (insert_order client fields number now db ≡ (err integrity_error, db)))
  unfolding insert_order insert
  insert_order-cases client fields number now db =
      elim (Bool-cases (any (λ o. str_eq o.order_number number) db.orders.rows)) [
        | inl e ↦ inr (e, rw e refl)
        | inr e ↦ inl (rw e refl)
      ]

  pub store_total_fits :
      (o : Order) (total : ℤ) (db : Db)
      → c.fits 12 total ≡ true
      → store_total o total db ≡ (
        ok (record o { total_amount = total }),
        record db { orders = update (record o { total_amount = total }) db.orders },
      )
  unfolding store_total save_order
  store_total_fits o total db e = rw e refl

  pub store_total_too_wide :
      (o : Order) (total : ℤ) (db : Db)
      → c.fits 12 total ≡ false
      → store_total o total db ≡ (err invalid_operation, db)
  unfolding store_total save_order
  store_total_too_wide o total db e = rw e refl

  -- `create` from the loop on, after the order's row has been inserted.
  abbrev pub add_rest : ℕ → OrderData → String → ℕ → List ItemData → Action Order
  add_rest client fields number now given db =
      let row = order_row client fields number now db.orders.next_id in
      (add_items row.id given (pos 0) >>= store_total row) (with_order client fields number now db)

  pub create_inserted :
      (client : ℕ) (fields : OrderData) (given : List ItemData) (code : String) (now : ℕ) (db : Db)
      → insert_order client fields (String.◌++◌ "ORD" code) now db ≡ (
        ok (order_row client fields (String.◌++◌ "ORD" code) now db.orders.next_id),
        with_order client fields (String.◌++◌ "ORD" code) now db,
      )
      → create client fields given code now db
        ≡ add_rest client fields (String.◌++◌ "ORD" code) now given db
  unfolding create
  create_inserted client fields given code now db e = rw e refl

  pub create_duplicate :
      (client : ℕ) (fields : OrderData) (given : List ItemData) (code : String) (now : ℕ) (db : Db)
      → insert_order client fields (String.◌++◌ "ORD" code) now db ≡ (err integrity_error, db)
      → create client fields given code now db ≡ (err integrity_error, db)
  unfolding create
  create_duplicate client fields given code now db e = rw e refl
