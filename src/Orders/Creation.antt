-- ===== src/Orders/Creation.antt =====
-- What `OrderSerializer.create` leaves in the database.
use python_diplom.Base.{
  ℕ, suc, ◌<◌, ◌≡◌, ◌≢◌, refl, sym, ap, ◌∙◌, List, [], ◌∷◌, String, ◌++◌, length, keep-append,
  keep-none, keep-All, All, All-append, All-zip, arith, ◌==◌, Bool-cases, inl, inr,
}
use mathlib.Core.List.{append-nil}
use Prim.Native.String
use python_diplom.Base.Int.{ℤ, pos, zero-+ℤ}
use python_diplom.Exn.{Result, ok, err, ok-injective, err-ne-ok}
use python_diplom.Table.{insert, update, IsWellKeyed}
use python_diplom.Table.Laws.{rows-update-insert, insert-IsWellKeyed, update-IsWellKeyed}
use python_diplom.Models.{Db, Order, OrderItem, order_model, item_model}
use python_diplom.Action.{then_run}
use python_diplom.Orders.{
  Columns, ItemData, OrderData, items_of, add_items, order_row, store_total, create,
}
use python_diplom.Orders.Totals.{amount, IsLine, Added, add_items-Added}
use python_diplom.Orders.Ownership.{below-false, own-true, own-false, own-below, old-below}
use python_diplom.Orders.Steps.{
  with_order, insert_order-cases, store_total_fits, store_total_too_wide, add_rest, create_inserted,
  create_duplicate,
}

-- Orders and items fit together: keys are in order, every item belongs to a key that has been
-- given out, every total is the sum over the order's items, and every subtotal is right.
pub record IsConsistent (db : Db) : Type 0 where
  pub keyed : IsWellKeyed db.orders
  pub below : All (λ i. i.order < db.orders.next_id) db.items.rows
  pub totals : All (λ o. o.total_amount ≡ amount (items_of o.id db)) db.orders.rows
  pub lines : All IsLine db.items.rows

-- What a successful `create` has done to `db`.
pub record Created (client : ℕ) (given : List ItemData) (order : Order) (db db' : Db) : Type 0 where
  pub consistent : IsConsistent db'
  pub fresh : order.id ≡ db.orders.next_id
  pub owner : order.client ≡ client
  pub stored : db'.orders.rows ≡ db.orders.rows ++ order ∷ []
  pub new_items : length (items_of order.id db') ≡ length given
  pub total : order.total_amount ≡ amount (items_of order.id db')
  pub other_items : (k : ℕ) → k ≢ order.id → items_of k db' ≡ items_of k db

module _ (client : ℕ) (fields : OrderData) (number : String) (now : ℕ) (given : List ItemData)
    (total : ℤ) (db db₂ : Db) where
  abbrev n : ℕ
  n = db.orders.next_id

  abbrev saved : Order
  saved = record (order_row client fields number now n) { total_amount = total }

  abbrev db₃ : Db
  db₃ = record db₂ { orders = update saved db₂.orders }

  module _ (added : Added n given (pos 0) total (with_order client fields number now db) db₂)
      (was : IsConsistent db) where
    items-new : items_of n db₃ ≡ added.new
    items-new =
        rw
          (
            added.rows,
            keep-append (λ (i : OrderItem). i.order == n) db.items.rows added.new,
            keep-none (λ (i : OrderItem). i.order == n) db.items.rows
                (below-false n db.items.rows was.below),
          )
          (keep-All (λ (i : OrderItem). i.order == n) added.new (own-true n added.new added.own))

    items-other : (k : ℕ) → k ≢ n → items_of k db₃ ≡ items_of k db
    items-other k ne =
        rw
          (
            added.rows,
            keep-append (λ (i : OrderItem). i.order == k) db.items.rows added.new,
            keep-none (λ (i : OrderItem). i.order == k) added.new
                (own-false n k added.new ne added.own),
          )
          (append-nil _)

    rows-orders : db₃.orders.rows ≡ db.orders.rows ++ saved ∷ []
    rows-orders = rw added.orders (
        rows-update-insert (order_row client fields number now) saved db.orders refl refl was.keyed)

    saved-total : total ≡ amount (items_of n db₃)
    saved-total = rw items-new (added.total ∙ zero-+ℤ (amount added.new))

    next-id : db₃.orders.next_id ≡ suc n
    unfolding update insert
    next-id = rw added.orders refl

    old-totals : All (λ o. o.total_amount ≡ amount (items_of o.id db₃)) db.orders.rows
    old-totals =
        All-zip (λ (o : Order). o.total_amount ≡ amount (items_of o.id db)) (λ o. o.id < n)
          (λ o. o.total_amount ≡ amount (items_of o.id db₃)) db.orders.rows
          (λ o t l. t ∙ sym (ap amount (items-other o.id (λ e. omega arith)))) was.totals
          was.keyed.below

    created : Created client given saved db db₃
    created = record {
      consistent = record {
        keyed = update-IsWellKeyed saved db₂.orders (
            rw added.orders (
              insert-IsWellKeyed (order_row client fields number now) db.orders (λ k. refl)
                was.keyed));
        below =
            rw (next-id, added.rows)
              (All-append (λ (i : OrderItem). i.order < suc n) db.items.rows added.new
                (old-below n db.items.rows was.below) (own-below n added.new added.own));
        totals = rw rows-orders (
            All-append (λ (o : Order). o.total_amount ≡ amount (items_of o.id db₃)) db.orders.rows
              (saved ∷ []) old-totals (saved-total, tt));
        lines = rw added.rows (All-append IsLine db.items.rows added.new was.lines added.lines);
      };
      fresh = refl;
      owner = refl;
      stored = rows-orders;
      new_items = rw items-new added.count;
      total = saved-total;
      other_items = items-other;
    }

module _ ⦃c : Columns⦄ where
  after_items-Created :
      (client : ℕ) (fields : OrderData) (number : String) (now : ℕ) (given : List ItemData)
      (o : Order) (db db₂ : Db) (r : Result ℤ)
      → ((total : ℤ)
          → r ≡ ok total
          → Added db.orders.next_id given
              (pos 0)
              total
              (with_order client fields number now db)
              db₂)
      → IsConsistent db
      → (then_run r (store_total (order_row client fields number now db.orders.next_id)) db₂).0
        ≡ ok o
      → Created client given o db
          (then_run r (store_total (order_row client fields number now db.orders.next_id)) db₂).1
  after_items-Created client fields number now given o db db₂ (err e) added was h =
      absurd (ground arith)
  after_items-Created client fields number now given o db db₂ (ok total) added was h =
      let row = order_row client fields number now db.orders.next_id in
      elim (Bool-cases (c.fits 12 total)) [
        | inl e ↦ rw (store_total_fits row total db₂ e) (
            rw (← ok-injective (rw (store_total_fits row total db₂ e) at h))
              (created client fields number now given total db db₂ (added total refl) was))
        | inr e ↦ absurd (err-ne-ok (rw (store_total_too_wide row total db₂ e) at h))
      ]

  after_insert-Created :
      (client : ℕ) (fields : OrderData) (number : String) (now : ℕ) (given : List ItemData)
      (o : Order) (db : Db)
      → IsConsistent db
      → (add_rest client fields number now given db).0 ≡ ok o
      → Created client given o db (add_rest client fields number now given db).1
  after_insert-Created client fields number now given o db was h =
      let n = db.orders.next_id in
      let start = with_order client fields number now db in
      let (r, db₂) = add_items n given (pos 0) start in
      after_items-Created client fields number now given o db db₂ r
        (λ total e. add_items-Added n given (pos 0) total start e) was h

  -- When `create` on a consistent database returns an order, the order is stored with the client's
  -- key and a fresh key of its own, has one row for each item given, and a total that is the sum
  -- over these rows; the items of other orders are as before, and the database stays consistent.
  pub create-Created :
      (client : ℕ) (fields : OrderData) (given : List ItemData) (code : String) (now : ℕ)
      (o : Order) (db : Db)
      → IsConsistent db
      → (create client fields given code now db).0 ≡ ok o
      → Created client given o db (create client fields given code now db).1
  create-Created client fields given code now o db was h =
      let number : String = String.◌++◌ "ORD" code in
      elim (insert_order-cases client fields number now db) [
        | inl e ↦ rw (create_inserted client fields given code now db e) (
            after_insert-Created client fields number now given o db was
              (rw (create_inserted client fields given code now db e) at h))
        | inr (_, e) ↦
            absurd (err-ne-ok (rw (create_duplicate client fields given code now db e) at h))
      ]
