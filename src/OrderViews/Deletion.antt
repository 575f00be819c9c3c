-- ===== src/OrderViews/Deletion.antt =====
-- The deletion of an order by `OrderViewSet` of orders/backend/views.py.
use python_diplom.Base.{
  ℕ, ◌<◌, ◌≡◌, ◌≢◌, refl, sym, ap, ◌∙◌, Bool, not, List, [], ◌∷◌, keep, All, All-keep, All-zip,
  arith, ◌==◌, Bool-cases, inl, inr,
}
use python_diplom.Exn.{Result-cases}
use python_diplom.Table.{delete, Distinct}
use python_diplom.Models.{Db, User, Order, OrderItem, order_model, item_model}
use python_diplom.Orders.{items_of}
use python_diplom.Orders.Totals.{amount, IsLine}
use python_diplom.Orders.Creation.{IsConsistent}
use python_diplom.OrderViews.{get_object, destroy}

keep-Distinct : (p : Order → Bool) (xs : List Order) → Distinct xs → Distinct (keep p xs)
keep-Distinct p [] d = tt
keep-Distinct p (x ∷ xs) d = elim (Bool-cases (p x)) [
  | inl e ↦ rw e (All-keep (λ b. x.id ≢ b.id) p xs d.0, keep-Distinct p xs d.1)
  | inr e ↦ rw e (keep-Distinct p xs d.1)
]

items-kept :
    (k n : ℕ) (xs : List OrderItem)
    → k ≢ n
    → keep (λ i. i.order == k) (keep (λ i. not (i.order == n)) xs) ≡ keep (λ i. i.order == k) xs
items-kept k n [] ne = refl
items-kept k n (x ∷ xs) ne = ground (arith, items-kept k n xs ne)

ne-kept : (n : ℕ) (xs : List Order) → All (λ o. o.id ≢ n) (keep (λ o. not (o.id == n)) xs)
ne-kept n [] = tt
ne-kept n (x ∷ xs) = elim (Bool-cases (x.id == n)) [
  | inl e ↦ rw e (ne-kept n xs)
  | inr e ↦ rw e ((ground arith), ne-kept n xs)
]

pub destroy-IsConsistent :
    (user : User) (pk : ℕ) (db : Db) → IsConsistent db → IsConsistent (destroy user pk db).1
unfolding destroy delete
destroy-IsConsistent user pk db was = elim (Result-cases (get_object user pk db)) [
  | inr (e, h) ↦ rw (h, destroy) was
  | inl (o, h) ↦
      rw (h, destroy)
        (record {
          keyed = record {
            below =
                All-keep (λ x. x.id < db.orders.next_id) (λ x. not (x.id == o.id)) db.orders.rows
                  was.keyed.below;
            distinct = keep-Distinct (λ x. not (x.id == o.id)) db.orders.rows was.keyed.distinct;
          };
          below =
              All-keep (λ i. i.order < db.orders.next_id) (λ i. not (i.order == o.id)) db.items.rows
                was.below;
          totals =
              All-zip (λ x. x.total_amount ≡ amount (items_of x.id db)) (λ x. x.id ≢ o.id)
                (λ x.
                  x.total_amount
                  ≡ amount (
                      keep (λ i. i.order == x.id)
                        (keep (λ i. not (i.order == o.id)) db.items.rows)))
                (keep (λ x. not (x.id == o.id)) db.orders.rows)
                (λ x t ne. t ∙ sym (ap amount (items-kept x.id o.id db.items.rows ne)))
                (All-keep (λ x. x.total_amount ≡ amount (items_of x.id db))
                  (λ x. not (x.id == o.id)) db.orders.rows was.totals)
                (ne-kept o.id db.orders.rows);
          lines = All-keep IsLine (λ i. not (i.order == o.id)) db.items.rows was.lines;
        })
]
