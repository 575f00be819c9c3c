-- ===== src/Orders/Partial.antt =====
-- What `create` leaves behind when it fails, and `calculate_total` after it.
use Prim.Native.String
use python_diplom.Base.{
  ℕ, ◌≡◌, refl, sym, ap, ◌∙◌, inl, inr, false, ◌&&◌, Option, some, List, ◌∷◌, String, any, arith,
  str_eq, or_default,
}
use python_diplom.Base.Int.{ℤ, pos, ◌*ℤ◌, zero-+ℤ}
use python_diplom.Exn.{ok, err, invalid_operation}
use python_diplom.Models.{Db, Order, Product, order_model, item_model}
use python_diplom.Action.{then_run}
use python_diplom.Orders.{
  Columns, ItemData, OrderData, items_of, save_order, calculate_total, add_line, add_items,
  create_item, create, store_total, order_row,
}
use python_diplom.Orders.Totals.{amount, sum_from-eq-amount}
use python_diplom.Orders.Creation.{IsConsistent, create-Created}
use python_diplom.Orders.Steps.{with_order, insert_order-cases, create_inserted}

module _ ⦃c : Columns⦄ where
  add_line_refused :
      (order : ℕ) (product : Product) (quantity : ℕ) (price : Option ℤ) (db : Db)
      → c.fits 10 (or_default product.price price)
          && c.fits 12 (quantity *ℤ or_default product.price price)
        ≡ false
      → add_line order (some product) (some quantity) price db ≡ (err invalid_operation, db)
  unfolding add_line create_item
  add_line_refused order product quantity price db h = rw h refl

  then_add_refused :
      (order : ℕ) (product : Product) (quantity : ℕ) (price : Option ℤ) (rest : List ItemData)
      (row : Order) (db : Db)
      → add_line order (some product) (some quantity) price db ≡ (err invalid_operation, db)
      → (let (r, db') =
            add_items order
              (record { product = some product; quantity = some quantity; price = price } ∷ rest)
              (pos 0)
              db in
          then_run r (store_total row) db')
        ≡ (err invalid_operation, db)
  unfolding add_items
  then_add_refused order product quantity price rest row db h = rw h refl

  -- `create` is not atomic: when the columns do not take the price or the subtotal of the first
  -- item, and the number is not in use, it raises `InvalidOperation` and the order that it has
  -- inserted stays, with no item and the total 0.
  pub failed_create_leaves_order :
      (client : ℕ) (fields : OrderData) (product : Product) (quantity : ℕ) (price : Option ℤ)
      (rest : List ItemData) (code : String) (now : ℕ) (db : Db)
      → c.fits 10 (or_default product.price price)
          && c.fits 12 (quantity *ℤ or_default product.price price)
        ≡ false
      → any (λ o. str_eq o.order_number (String.◌++◌ "ORD" code)) db.orders.rows ≡ false
      → create client fields
          (record { product = some product; quantity = some quantity; price = price } ∷ rest)
          code
          now
          db
        ≡ (err invalid_operation, with_order client fields (String.◌++◌ "ORD" code) now db)
  failed_create_leaves_order client fields product quantity price rest code now db h free =
      let number : String = String.◌++◌ "ORD" code in
      let given =
        record { product = some product; quantity = some quantity; price = price } ∷ rest in
      let db₁ = with_order client fields number now db in
      elim (insert_order-cases client fields number now db) [
        | inr (taken, e) ↦ absurd (ground (arith, taken, free))
        | inl e ↦
            create_inserted client fields given code now db e
            ∙ then_add_refused db.orders.next_id product quantity price rest
                (order_row client fields number now db.orders.next_id) db₁
                (add_line_refused db.orders.next_id product quantity price db₁ h)
      ]

  calculate_total-saves :
      (o : Order) (db : Db)
      → o.total_amount ≡ amount (items_of o.id db)
      → calculate_total o db ≡ save_order o db
  unfolding calculate_total
  calculate_total-saves o db h =
      ap (λ t. save_order (record o { total_amount = t }) db)
        (sum_from-eq-amount (pos 0) (items_of o.id db)
          ∙ zero-+ℤ (amount (items_of o.id db))
          ∙ sym h)

  -- `calculate_total` on an order that `create` has returned saves the order as it is: both compute
  -- the same total.
  pub calculate_total-create :
      (client : ℕ) (fields : OrderData) (given : List ItemData) (code : String) (now : ℕ)
      (o : Order) (db : Db)
      → IsConsistent db
      → (create client fields given code now db).0 ≡ ok o
      → calculate_total o (create client fields given code now db).1
        ≡ save_order o (create client fields given code now db).1
  calculate_total-create client fields given code now o db was h =
      calculate_total-saves o (create client fields given code now db).1
        (create-Created client fields given code now o db was h).total
