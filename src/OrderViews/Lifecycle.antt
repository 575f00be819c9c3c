-- ===== src/OrderViews/Lifecycle.antt =====
-- Sequences of requests on stored orders.
use python_diplom.Base.{ℕ, ◌≡◌, refl, true, false, some, List, [], ◌∷◌, ==_iff}
use python_diplom.Exn.{ok}
use python_diplom.Table.{get, update, IsWellKeyed}
use python_diplom.Table.Laws.{get-replace_self, update-IsWellKeyed}
use python_diplom.Models.{
  Db, User, UserType, Supplier, Order, Status, supplier_profile, order_model, item_model,
}
use python_diplom.Orders.{Columns, OrderPatch, save_order}
use python_diplom.Orders.Creation.{IsConsistent}
use python_diplom.OrderViews.{
  has_item_of, get_object, is_sent, confirm, confirm_order, cancel, cancel_order, update_order,
  destroy,
}
use python_diplom.OrderViews.Visibility.{get_object_iff}
use python_diplom.OrderViews.Transitions.{
  confirmed, answer_saved-state, confirm-IsConsistent, cancel-IsConsistent,
  update_order-IsConsistent,
}
use python_diplom.OrderViews.Deletion.{destroy-IsConsistent}

-- A request on a stored order.
pub data Call : Type 0 where
  confirm_call : User → ℕ → ℕ → Call
  cancel_call destroy_call : User → ℕ → Call
  update_call : User → ℕ → OrderPatch → Call

module _ ⦃c : Columns⦄ where
  -- The database after one request, whether it succeeds or not, and after a sequence of them.
  abbrev pub after : Call → Db → Db
  after (confirm_call user pk now) db = (confirm user pk now db).1
  after (cancel_call user pk) db = (cancel user pk db).1
  after (destroy_call user pk) db = (destroy user pk db).1
  after (update_call user pk patch) db = (update_order user pk patch db).1

  abbrev pub after_all : List Call → Db → Db
  after_all [] db = db
  after_all (call ∷ rest) db = after_all rest (after call db)

  pub after-IsConsistent : (call : Call) (db : Db) → IsConsistent db → IsConsistent (after call db)
  after-IsConsistent (confirm_call user pk now) db h = confirm-IsConsistent user pk now db h
  after-IsConsistent (cancel_call user pk) db h = cancel-IsConsistent user pk db h
  after-IsConsistent (destroy_call user pk) db h = destroy-IsConsistent user pk db h
  after-IsConsistent (update_call user pk patch) db h = update_order-IsConsistent user pk patch db h

  -- Whatever requests users make on the stored orders of a consistent database, and however these
  -- end: every order's total stays the sum over its items, every subtotal stays right, and no
  -- order's key is reused.
  pub after_all-IsConsistent :
      (calls : List Call) (db : Db) → IsConsistent db → IsConsistent (after_all calls db)
  after_all-IsConsistent [] db h = h
  after_all-IsConsistent (call ∷ rest) db h =
      after_all-IsConsistent rest (after call db) (after-IsConsistent call db h)

  save_order_fits :
      (o : Order) (db : Db)
      → c.fits 12 o.total_amount ≡ true
      → (save_order o db).1 ≡ record db { orders = update o db.orders }
  unfolding save_order
  save_order_fits o db fit = rw fit refl

  get-update_self :
      (o o' : Order) (db : Db)
      → get o'.id db.orders ≡ some o
      → get o'.id (update o' db.orders) ≡ some o'
  unfolding update
  get-update_self o o' db found = get-replace_self o' o db.orders.rows found

  confirm-saves :
      (user : User) (profile : Supplier) (now : ℕ) (o : Order) (db : Db)
      → get_object user o.id db ≡ ok o
      → user.user_type ≡ UserType.supplier
      → supplier_profile user.id db ≡ some profile
      → has_item_of profile.id o.id db ≡ true
      → (confirm user o.id now db).1 ≡ (save_order (confirmed o now) db).1
  unfolding confirm confirm_order
  confirm-saves user profile now o db g st prof has =
      rw (g, confirm, st, prof, has) (answer_saved-state _ _)

  cancel-saves :
      (user : User) (o : Order) (db : Db)
      → get_object user o.id db ≡ ok o
      → o.client ≡ user.id
      → is_sent o.status ≡ false
      → (cancel user o.id db).1 ≡ (save_order (record o { status = Status.cancelled }) db).1
  unfolding cancel cancel_order
  cancel-saves user o db g own s =
      rw (g, cancel, (==_iff o.client user.id).1 own, s) (answer_saved-state _ _)

  -- The guard of `cancel` can be passed by way of `confirm`: whatever its status, also delivered,
  -- an order with an item of the supplier's ends up cancelled when first that supplier confirms it
  -- and then its client cancels it, in a well-keyed table whose column takes the order's total.
  pub delivered_then_cancelled :
      (supplier client : User) (profile : Supplier) (now : ℕ) (o : Order) (db : Db)
      → IsWellKeyed db.orders
      → get o.id db.orders ≡ some o
      → supplier.user_type ≡ UserType.supplier
      → supplier_profile supplier.id db ≡ some profile
      → has_item_of profile.id o.id db ≡ true
      → client.user_type ≡ UserType.client
      → o.client ≡ client.id
      → c.fits 12 o.total_amount ≡ true
      → get o.id
          (after_all (confirm_call supplier o.id now ∷ cancel_call client o.id ∷ []) db).orders
        ≡ some (record o { status = Status.cancelled; confirmed_at = some now })
  delivered_then_cancelled supplier client profile now o db w found st prof has ct own fit =
      let o₁ = confirmed o now in
      let o₂ : Order = record o₁ { status = Status.cancelled } in
      let db₁ : Db = record db { orders = update o₁ db.orders } in
      let found₁ : get o₁.id db₁.orders ≡ some o₁ = get-update_self o o₁ db found in
      let g = (get_object_iff supplier o.id db o w).1 (found, rw (st, prof) has) in
      let g₁ =
        (get_object_iff client o.id db₁ o₁ (update-IsWellKeyed o₁ db.orders w)).1
          (found₁, rw ct ((==_iff o.client client.id).1 own)) in
      rw (confirm-saves supplier profile now o db g st prof has, save_order_fits o₁ db fit)
        (rw (cancel-saves client o₁ db₁ g₁ own refl, save_order_fits o₂ db₁ fit)
          (get-update_self o₁ o₂ db₁ found₁))
