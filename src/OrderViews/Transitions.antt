-- ===== src/OrderViews/Transitions.antt =====
-- How the actions change the orders: what stays consistent, and which status an order can get.
use python_diplom.Base.{
  ℕ, ◌≡◌, refl, sym, ap, ◌∙◌, false, some, ◌==◌, Bool-cases, Option-cases, ◌⊎◌, inl, inr,
}
use python_diplom.Exn.{Result, ok, err, Result-cases}
use python_diplom.Table.{get, update}
use python_diplom.Table.Laws.{update-IsWellKeyed}
use python_diplom.Table.Presence.{All-find, All-replaced}
use python_diplom.Models.{
  Db, User, Order, Status, is_supplier, supplier_profile, order_model, item_model,
}
use python_diplom.Orders.{Columns, OrderPatch, items_of, save_order}
use python_diplom.Orders.Totals.{amount}
use python_diplom.Orders.Creation.{IsConsistent}
use python_diplom.OrderViews.{
  has_item_of, get_object, is_sent, confirm, confirm_order, cancel, cancel_order, update_order,
  patched, validate_patch, answer_saved,
}
use python_diplom.OrderViews.Visibility.{get_object_iff}

-- Saving an order with its key and its total keeps the database consistent.
save-IsConsistent :
    (pk : ℕ) (o o' : Order) (db : Db)
    → get pk db.orders ≡ some o
    → o'.id ≡ o.id
    → o'.total_amount ≡ o.total_amount
    → IsConsistent db
    → IsConsistent (record db { orders = update o' db.orders })
unfolding update
save-IsConsistent pk o o' db found same total c = record {
  keyed = update-IsWellKeyed o' db.orders c.keyed;
  below = c.below;
  totals =
      All-replaced (λ x. x.total_amount ≡ amount (items_of x.id db)) o' db.orders.rows
        (total
          ∙ All-find (λ x. x.total_amount ≡ amount (items_of x.id db)) (λ x. x.id == pk)
              db.orders.rows o c.totals found
          ∙ ap (λ k. amount (items_of k db)) (sym same))
        c.totals;
  lines = c.lines;
}

module _ ⦃c : Columns⦄ where
  pub save_order-IsConsistent :
      (pk : ℕ) (o o' : Order) (db : Db)
      → get pk db.orders ≡ some o
      → o'.id ≡ o.id
      → o'.total_amount ≡ o.total_amount
      → IsConsistent db
      → IsConsistent (save_order o' db).1
  unfolding save_order
  save_order-IsConsistent pk o o' db found same total was =
      elim (Bool-cases (c.fits 12 o'.total_amount)) [
        | inl e ↦ rw e (save-IsConsistent pk o o' db found same total was)
        | inr e ↦ rw e was
      ]

  pub answer_saved-state :
      {A : Type 0} (r : Result (Unit {0}) × Db) (a : Result A) → (answer_saved r a).1 ≡ r.1
  answer_saved-state (ok _, db) a = refl
  answer_saved-state (err e, db) a = refl

  -- What `confirm` and `cancel` leave behind once the order is found: the old database, or the
  -- database after the order has been saved with its new status.
  abbrev pub confirmed : Order → ℕ → Order
  confirmed o now = record o { status = Status.confirmed; confirmed_at = some now }

  pub confirm_order-state :
      (user : User) (o : Order) (now : ℕ) (db : Db)
      → ((confirm_order user o now db).1 ≡ db)
        ⊎ ((confirm_order user o now db).1 ≡ (save_order (confirmed o now) db).1)
  unfolding confirm_order
  confirm_order-state user o now db = elim (Bool-cases (is_supplier user.user_type)) [
    | inr e ↦ inl (rw e refl)
    | inl e ↦ elim (Option-cases (supplier_profile user.id db)) [
      | inl n ↦ inl (rw (e, n) refl)
      | inr (s, n) ↦ elim (Bool-cases (has_item_of s.id o.id db)) [
        | inr m ↦ inl (rw (e, n, m) refl)
        | inl m ↦ inr (rw (e, n, m) (answer_saved-state _ _))
      ]
    ]
  ]

  pub cancel_order-state :
      (user : User) (o : Order) (db : Db)
      → ((cancel_order user o db).1 ≡ db)
        ⊎ (is_sent o.status ≡ false)
          × ((cancel_order user o db).1
              ≡ (save_order (record o { status = Status.cancelled }) db).1)
  unfolding cancel_order
  cancel_order-state user o db = elim (Bool-cases (o.client == user.id)) [
    | inr e ↦ inl (rw e refl)
    | inl e ↦ elim (Bool-cases (is_sent o.status)) [
      | inl s ↦ inl (rw (e, s) refl)
      | inr s ↦ inr (s, rw (e, s) (answer_saved-state _ _))
    ]
  ]

  pub confirm-IsConsistent :
      (user : User) (pk now : ℕ) (db : Db)
      → IsConsistent db
      → IsConsistent (confirm user pk now db).1
  unfolding confirm
  confirm-IsConsistent user pk now db was = elim (Result-cases (get_object user pk db)) [
    | inr (e, h) ↦ rw (h, confirm) was
    | inl (o, h) ↦ elim (confirm_order-state user o now db) [
      | inl same ↦ rw (h, confirm, same) was
      | inr saved ↦
          rw (h, confirm, saved)
            (save_order-IsConsistent pk o (confirmed o now) db
              ((get_object_iff user pk db o was.keyed).0 h).0 refl refl was)
    ]
  ]

  pub cancel-IsConsistent :
      (user : User) (pk : ℕ) (db : Db) → IsConsistent db → IsConsistent (cancel user pk db).1
  unfolding cancel
  cancel-IsConsistent user pk db was = elim (Result-cases (get_object user pk db)) [
    | inr (e, h) ↦ rw (h, cancel) was
    | inl (o, h) ↦ elim (cancel_order-state user o db) [
      | inl same ↦ rw (h, cancel, same) was
      | inr (_, saved) ↦
          rw (h, cancel, saved)
            (save_order-IsConsistent pk o (record o { status = Status.cancelled }) db
              ((get_object_iff user pk db o was.keyed).0 h).0 refl refl was)
    ]
  ]

  pub update_order-IsConsistent :
      (user : User) (pk : ℕ) (patch : OrderPatch) (db : Db)
      → IsConsistent db
      → IsConsistent (update_order user pk patch db).1
  unfolding update_order
  update_order-IsConsistent user pk patch db was = elim (Result-cases (get_object user pk db)) [
    | inr (e, h) ↦ rw (h, update_order) was
    | inl (o, h) ↦ elim (Result-cases (validate_patch patch)) [
      | inr (e, v) ↦ rw (h, update_order, v) was
      | inl (_, v) ↦
          rw (h, update_order, v)
            (rw answer_saved-state (
              save_order-IsConsistent pk o (patched patch o) db
                ((get_object_iff user pk db o was.keyed).0 h).0 refl refl was))
    ]
  ]
