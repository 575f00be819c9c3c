-- ===== src/OrderViews/Sent.antt =====
-- What the rule of `cancel` protects: orders that are shipped or delivered.
use python_diplom.Base.{
  ℕ, ◌≡◌, ◌≢◌, refl, sym, ap, ◌∙◌, true, some, some-injective, List, [], ◌∷◌, find, All, arith,
  ◌==◌, ==_iff, Bool-cases, inl, inr,
}
use mathlib.Core.Path.{subst}
use python_diplom.Exn.{Result-cases}
use python_diplom.Table.{get, update}
use python_diplom.Table.Laws.{get-replace_ne}
use python_diplom.Models.{Db, User, Order, Status, order_model}
use python_diplom.Orders.{Columns, save_order}
use python_diplom.Orders.Creation.{IsConsistent}
use python_diplom.OrderViews.{get_object, is_sent, confirm, cancel}
use python_diplom.OrderViews.Visibility.{get_object_iff}
use python_diplom.OrderViews.Transitions.{confirmed, confirm_order-state, cancel_order-state}
use python_diplom.OrderViews.Lifecycle.{
  Call, confirm_call, cancel_call, destroy_call, update_call, after, after_all, after-IsConsistent,
}

found_id : (k : ℕ) (o : Order) (xs : List Order) → find (λ x. x.id == k) xs ≡ some o → o.id ≡ k
found_id k o [] h = absurd (ground arith)
found_id k o (x ∷ xs) h = ground (arith, found_id k o xs)

module _ ⦃c : Columns⦄ where
  -- Saving an order with another key leaves the order.
  get-save_other :
      (k : ℕ) (o : Order) (db : Db) → o.id ≢ k → get k (save_order o db).1.orders ≡ get k db.orders
  unfolding save_order update
  get-save_other k o db ne = elim (Bool-cases (c.fits 12 o.total_amount)) [
    | inl e ↦ rw (e, save_order) (get-replace_ne o k db.orders.rows (λ e. ne (sym e)))
    | inr e ↦ rw (e, save_order) refl
  ]

  -- A cancellation by anyone, and a confirmation of another order.
  abbrev pub Spares : ℕ → Call → Type 0
  Spares k (confirm_call user pk now) = pk ≢ k
  Spares k (cancel_call user pk) = Unit
  Spares k _ = ⊥

  get-confirm_other :
      (user : User) (pk now k : ℕ) (db : Db)
      → IsConsistent db
      → pk ≢ k
      → get k (confirm user pk now db).1.orders ≡ get k db.orders
  unfolding confirm
  get-confirm_other user pk now k db was ne = elim (Result-cases (get_object user pk db)) [
    | inr (e, g) ↦ rw (g, confirm) refl
    | inl (o, g) ↦
        let found = ((get_object_iff user pk db o was.keyed).0 g).0 in
        let other : o.id ≢ k = λ e. ne (sym (found_id pk o db.orders.rows found) ∙ e) in
        elim (confirm_order-state user o now db) [
          | inl same ↦ rw (g, confirm, same) refl
          | inr saved ↦ rw (g, confirm, saved) (get-save_other k (confirmed o now) db other)
        ]
  ]

  -- A cancellation leaves an order that is sent.
  get-cancel_sent :
      (user : User) (pk k : ℕ) (db : Db) (o : Order)
      → IsConsistent db
      → is_sent o.status ≡ true
      → get k db.orders ≡ some o
      → get k (cancel user pk db).1.orders ≡ some o
  unfolding cancel
  get-cancel_sent user pk k db o was sent stored = elim (Result-cases (get_object user pk db)) [
    | inr (e, g) ↦ rw (g, cancel) stored
    | inl (o', g) ↦
        let found = ((get_object_iff user pk db o' was.keyed).0 g).0 in
        elim (cancel_order-state user o' db) [
          | inl same ↦ rw (g, cancel, same) stored
          | inr (fresh, saved) ↦ elim (Bool-cases (pk == k)) [
            | inl e ↦
                let there : get k db.orders ≡ some o' =
                  subst (λ j. get j db.orders ≡ some o') ((==_iff pk k).0 e) found in
                let same = some-injective (sym stored ∙ there) in
                absurd (cc (sent, fresh, ap (λ x. is_sent x.status) same))
            | inr e ↦
                let other : o'.id ≢ k = λ h.
                  absurd
                    (cc (e, (==_iff pk k).1 (sym (found_id pk o' db.orders.rows found) ∙ h))) in
                rw (g, cancel, saved)
                  (get-save_other k (record o' { status = Status.cancelled }) db other ∙ stored)
          ]
        ]
  ]

  sent-after :
      (call : Call) (db : Db) (k : ℕ) (o : Order)
      → Spares k call
      → IsConsistent db
      → is_sent o.status ≡ true
      → get k db.orders ≡ some o
      → get k (after call db).orders ≡ some o
  sent-after (confirm_call user pk now) db k o ne was sent h =
      get-confirm_other user pk now k db was ne ∙ h
  sent-after (cancel_call user pk) db k o ne was sent h = get-cancel_sent user pk k db o was sent h
  sent-after (destroy_call user pk) db k o ne was sent h = absurd ne
  sent-after (update_call user pk patch) db k o ne was sent h = absurd ne

  -- On a consistent database, an order that is shipped or delivered is still stored with the same
  -- fields after any sequence of cancellations of any orders by anyone, and of confirmations of
  -- other orders.
  pub sent_untouched :
      (calls : List Call) (db : Db) (k : ℕ) (o : Order)
      → IsConsistent db
      → All (Spares k) calls
      → is_sent o.status ≡ true
      → get k db.orders ≡ some o
      → get k (after_all calls db).orders ≡ some o
  sent_untouched [] db k o was a sent h = h
  sent_untouched (call ∷ rest) db k o was a sent h =
      sent_untouched rest (after call db) k o (after-IsConsistent call db was) a.1 sent
        (sent-after call db k o a.0 was sent h)
