-- ===== src/Orders/Success.antt =====
-- When an order is created.
use Prim.Native.String
use python_diplom.Base.{
  ℕ, ◌≡◌, refl, ap, ◌∙◌, inl, inr, true, false, Option, none, some, List, [], ◌∷◌, ◌++◌, String,
  All, any, is_nil, arith, str_eq,
}
use python_diplom.Base.Int.{ℤ, pos, ◌+ℤ◌, ◌*ℤ◌, int_laws, zero-+ℤ}
use python_diplom.Exn.{Result, ok}
use python_diplom.Models.{Db, User, Order, Product, Task, order_model, item_model}
use python_diplom.Action.{then_run}
use python_diplom.Orders.{
  Columns, ItemData, OrderData, or_default, validate_items, add_line, add_items, create_item,
  create, create_order, store_total, order_row,
}
use python_diplom.Orders.Validation.{InStock, IsOrderable, validate_items_iff}
use python_diplom.Orders.Steps.{with_order, insert_order-cases, create_inserted, store_total_fits}

-- What an entry costs: the quantity times the price given, or else the product's.
abbrev pub line_amount : Option Product → Option ℕ → Option ℤ → ℤ
line_amount (some product) (some quantity) price = quantity *ℤ or_default product.price price
line_amount _ _ _ = pos 0

abbrev pub asked_total : List ItemData → ℤ
asked_total [] = pos 0
asked_total (item ∷ rest) = line_amount item.product item.quantity item.price +ℤ asked_total rest

module _ ⦃c : Columns⦄ where
  -- The columns of an item take its price and its subtotal.
  abbrev pub FitsLine : Option Product → Option ℕ → Option ℤ → Type 0
  FitsLine (some product) (some quantity) price =
      (c.fits 10 (or_default product.price price) ≡ true)
      × (c.fits 12 (quantity *ℤ or_default product.price price) ≡ true)
  FitsLine _ _ _ = Unit

  abbrev pub FitsColumns : ItemData → Type 0
  FitsColumns item = FitsLine item.product item.quantity item.price

  add_line_ok :
      (order : ℕ) (product : Option Product) (quantity : Option ℕ) (price : Option ℤ) (db : Db)
      → InStock product quantity
      → FitsLine product quantity price
      → (add_line order product quantity price db).0 ≡ ok (line_amount product quantity price)
  unfolding add_line create_item
  add_line_ok order none quantity price db s f = absurd s
  add_line_ok order (some p) none price db s f = absurd s
  add_line_ok order (some p) (some q) price db s f = rw (f.0, f.1) refl

  then_add_ok :
      (order : ℕ) (rest : List ItemData) (start line end : ℤ) (db : Db) (r : Result ℤ)
      → r ≡ ok line
      → (add_items order rest (start +ℤ line) db).0 ≡ ok end
      → (then_run r (λ line. add_items order rest (start +ℤ line)) db).0 ≡ ok end
  then_add_ok order rest start line end db r e h = rw e h

  add_items_ok :
      (order : ℕ) (given : List ItemData) (start : ℤ) (db : Db)
      → All IsOrderable given
      → All FitsColumns given
      → (add_items order given start db).0 ≡ ok (start +ℤ asked_total given)
  unfolding add_items
  add_items_ok order [] start db s f = ap ok (omega int_laws)
  add_items_ok order (item ∷ rest) start db s f =
      let line = line_amount item.product item.quantity item.price in
      let (r, db₁) = add_line order item.product item.quantity item.price db in
      then_add_ok order rest start line _ db₁ r
        (add_line_ok order item.product item.quantity item.price db s.0 f.0)
        (add_items_ok order rest (start +ℤ line) db₁ s.1 f.1 ∙ ap ok (omega int_laws))

  -- The order that `create` returns.
  abbrev pub expected : ℕ → OrderData → List ItemData → String → ℕ → Db → Order
  expected client fields given code now db =
      record (order_row client fields (String.◌++◌ "ORD" code) now db.orders.next_id) {
        total_amount = asked_total given;
      }

  then_store_ok :
      (o : Order) (total : ℤ) (r : Result ℤ) (db : Db)
      → r ≡ ok total
      → c.fits 12 total ≡ true
      → (then_run r (store_total o) db).0 ≡ ok (record o { total_amount = total })
  then_store_ok o total r db e fit = rw e (ap (λ x. x.0) (store_total_fits o total db fit))

  create_ok :
      (client : ℕ) (fields : OrderData) (given : List ItemData) (code : String) (now : ℕ) (db : Db)
      → All IsOrderable given
      → All FitsColumns given
      → c.fits 12 (asked_total given) ≡ true
      → any (λ o. str_eq o.order_number (String.◌++◌ "ORD" code)) db.orders.rows ≡ false
      → (create client fields given code now db).0 ≡ ok (expected client fields given code now db)
  create_ok client fields given code now db s f fit free =
      let number : String = String.◌++◌ "ORD" code in
      elim (insert_order-cases client fields number now db) [
        | inr (taken, e) ↦ absurd (ground (arith, taken, free))
        | inl e ↦ rw (create_inserted client fields given code now db e) (
            then_store_ok (order_row client fields number now db.orders.next_id) (asked_total given)
              _ _
              (add_items_ok db.orders.next_id given (pos 0) (with_order client fields number now db)
                  s f
                ∙ ap ok (zero-+ℤ (asked_total given)))
              fit)
      ]

  validate_ok :
      (given : List ItemData)
      → is_nil given ≡ false
      → All IsOrderable given
      → validate_items given ≡ ok given
  validate_ok given filled s = (validate_items_iff given).1 (filled, s)

  -- `perform_create` changes the queue alone.
  abbrev pub queued : Order → Db → Db
  queued o db = record db {
    queue = db.queue ++ Task.send_order_confirmation_email o.id ∷ Task.send_invoice_email o.id ∷ [];
  }

  create_order_calls :
      (user : User) (fields : OrderData) (given : List ItemData) (code : String) (now : ℕ)
      (o : Order) (db : Db)
      → validate_items given ≡ ok given
      → (create user.id fields given code now db).0 ≡ ok o
      → create_order user fields given code now db
        ≡ (ok o, queued o (create user.id fields given code now db).1)
  unfolding create_order
  create_order_calls user fields given code now o db v h = rw (v, h, create_order) refl

  -- An order over items that are in stock is created, if the columns take its prices and its total
  -- and its number is not in use: the answer is the order with the sum of what the entries cost,
  -- and the two mails for it are sent.
  pub create_order_succeeds :
      (user : User) (fields : OrderData) (given : List ItemData) (code : String) (now : ℕ) (db : Db)
      → is_nil given ≡ false
      → All IsOrderable given
      → All FitsColumns given
      → c.fits 12 (asked_total given) ≡ true
      → any (λ o. str_eq o.order_number (String.◌++◌ "ORD" code)) db.orders.rows ≡ false
      → create_order user fields given code now db ≡ (
        ok (expected user.id fields given code now db),
        queued
            (expected user.id fields given code now db)
            (create user.id fields given code now db).1,
      )
  create_order_succeeds user fields given code now db filled s f fit free =
      create_order_calls user fields given code now (expected user.id fields given code now db) db
        (validate_ok given filled s) (create_ok user.id fields given code now db s f fit free)
