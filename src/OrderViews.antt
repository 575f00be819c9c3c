-- ===== src/OrderViews.antt =====
-- `OrderViewSet` of orders/backend/views.py: who sees which orders, and the actions on one order.
-- The handlers stand behind `IsAuthenticated`, and the request carries no filter parameters.
pub mod Visibility
pub mod Transitions
pub mod Statistics
pub mod Deletion
pub mod Lifecycle
pub mod Sent
use python_diplom.Base.{
  ℕ, ◌+◌, String, Bool, true, false, not, ◌&&◌, Option, none, some, List, [], ◌∷◌, ◌++◌, length,
  keep, any, find, take, str_eq, ◌==◌, leb, if◌then◌else◌, or_default,
}
use python_diplom.Base.Int.{ℤ, pos, ◌+ℤ◌}
use python_diplom.Exn.{Exn, Result, ok, err, http404, does_not_exist, ◌>>=◌, or_raise}
use python_diplom.Table.{Table, delete}
use python_diplom.Models.{
  Db, User, Order, OrderItem, Supplier, Status, Task, is_supplier, is_client, supplier_profile,
  order_model, item_model,
}
use python_diplom.Action.{Action, Response}
use python_diplom.Orders.{
  Columns, ItemData, OrderPatch, Reply, message, error, validate_items, items_of, save_order,
}

-- `order.items.filter(supplier=supplier).exists()`
abbrev pub has_item_of : ℕ → ℕ → Db → Bool
has_item_of supplier order db =
    any (λ i. (i.order == order) && (i.supplier == supplier)) db.items.rows

-- `OrderViewSet.get_queryset`. `distinct` makes each order appear once, as it does here.
unfoldable pub get_queryset : User → Db → Result (List Order)
get_queryset user db =
    let own = keep (λ o. o.client == user.id) db.orders.rows in
    if is_client user.user_type
    then ok own
    else if is_supplier user.user_type
    then elim (supplier_profile user.id db) [
      | none ↦ err does_not_exist
      | some s ↦ ok (keep (λ o. has_item_of s.id o.id db) db.orders.rows)
    ]
    else ok db.orders.rows

-- `self.get_object()`
unfoldable pub get_object : User → ℕ → Db → Result Order
unfolding get_queryset
get_object user pk db = do
  orders ← get_queryset user db
  or_raise (find (λ o. o.id == pk) orders) http404

abbrev pub respond : ℕ → Reply → Result (Response Reply)
respond status body = ok (record { status = status; body = body })

-- `order.status in ['shipped', 'delivered']`
abbrev pub is_sent : Status → Bool
is_sent Status.shipped = true
is_sent Status.delivered = true
is_sent _ = false

-- `order.save()`, then the answer
abbrev pub answer_saved : {A : Type 0} → Result (Unit {0}) × Db → Result A → Result A × Db
answer_saved (ok _, db) answer = (answer, db)
answer_saved (err e, db) answer = (err e, db)

module _ ⦃c : Columns⦄ where
  -- `OrderViewSet.confirm`, once the order has been found
  pub confirm_order : User → Order → ℕ → Action (Response Reply)
  unfolding save_order
  confirm_order user order now db =
      let confirmed = record order { status = Status.confirmed; confirmed_at = some now } in
      if not (is_supplier user.user_type)
      then (respond 403 (error "Только поставщики могут подтверждать заказы"), db)
      else elim (supplier_profile user.id db) [
        | none ↦ (err does_not_exist, db)
        | some supplier ↦
            if not (has_item_of supplier.id order.id db)
            then (respond 400 (error "Этот заказ не содержит ваших товаров"), db)
            else answer_saved (save_order confirmed db) (respond 200 (message "Заказ подтвержден"))
      ]

  pub confirm : User → ℕ → ℕ → Action (Response Reply)
  unfolding get_object confirm_order
  confirm user pk now db = elim (get_object user pk db) [
    | err e ↦ (err e, db)
    | ok order ↦ confirm_order user order now db
  ]

  -- `OrderViewSet.cancel`, once the order has been found
  unfoldable pub cancel_order : User → Order → Action (Response Reply)
  unfolding save_order
  cancel_order user order db =
      if not (order.client == user.id)
      then (respond 403 (error "Вы можете отменить только свои заказы"), db)
      else if is_sent order.status
      then (respond 400 (error "Нельзя отменить заказ, который уже отправлен или доставлен"), db)
      else answer_saved (save_order (record order { status = Status.cancelled }) db)
          (respond 200 (message "Заказ отменен"))

  unfoldable pub cancel : User → ℕ → Action (Response Reply)
  unfolding get_object cancel_order
  cancel user pk db = elim (get_object user pk db) [
    | err e ↦ (err e, db)
    | ok order ↦ cancel_order user order db
  ]

  -- `validate_items`, if `items` is sent
  abbrev pub validate_patch : OrderPatch → Result (Unit {0})
  validate_patch patch = elim patch.items [
    | none ↦ ok tt
    | some items ↦ elim (validate_items items) [ ok _ ↦ ok tt | err e ↦ err e ]
  ]

  -- `setattr(instance, attr, value)` for each validated field; `items` has been taken out
  abbrev pub patched : OrderPatch → Order → Order
  patched patch o = record o {
    client = or_default o.client patch.client;
    status = or_default o.status patch.status;
    delivery_address = or_default o.delivery_address patch.delivery_address;
    contact_phone = or_default o.contact_phone patch.contact_phone;
    notes = or_default o.notes patch.notes;
  }

  -- PUT and PATCH: the viewset's `update`, which ends in `OrderSerializer.update`
  pub update_order : User → ℕ → OrderPatch → Action Order
  unfolding get_object save_order validate_items
  update_order user pk patch db = elim (get_object user pk db) [
    | err e ↦ (err e, db)
    | ok order ↦ elim (validate_patch patch) [
      | err e ↦ (err e, db)
      | ok _ ↦ answer_saved (save_order (patched patch order) db) (ok (patched patch order))
    ]
  ]

-- DELETE: the viewset's `destroy`; the items go with their order (`on_delete=CASCADE`)
unfoldable pub destroy : User → ℕ → Action (Unit {0})
unfolding get_object
destroy user pk db = elim (get_object user pk db) [
  | err e ↦ (err e, db)
  | ok order ↦ (
    ok tt,
    record db {
      orders = delete (λ o. o.id == order.id) db.orders;
      items = delete (λ i. i.order == order.id) db.items;
    },
  )
]

abbrev pub same_status : Status → Status → Bool
same_status Status.pending Status.pending = true
same_status Status.confirmed Status.confirmed = true
same_status Status.processing Status.processing = true
same_status Status.shipped Status.shipped = true
same_status Status.delivered Status.delivered = true
same_status Status.cancelled Status.cancelled = true
same_status _ _ = false

-- `queryset.filter(status=status_value).count()`
abbrev pub count_status : Status → List Order → ℕ
count_status s orders = length (keep (λ o. same_status o.status s) orders)

-- `Sum('total_amount')`, `or 0`
pub sum_totals : List Order → ℤ
sum_totals [] = pos 0
sum_totals (o ∷ rest) = o.total_amount +ℤ sum_totals rest

-- `queryset.order_by('-created_at')`, by insertion
pub insert_newest : Order → List Order → List Order
insert_newest o [] = o ∷ []
insert_newest o (p ∷ rest) =
    let later = insert_newest o rest in
    if leb p.created_at o.created_at then o ∷ p ∷ rest else p ∷ later

pub newest_first : List Order → List Order
unfolding insert_newest
newest_first [] = []
newest_first (o ∷ rest) = insert_newest o (newest_first rest)

-- The body of the answer of `statistics`; the orders stand for their serialised form.
pub record Stats : Type 0 where
  pub total_orders : ℕ
  pub total_amount : ℤ
  pub by_status : Status → ℕ
  pub recent_orders : List Order

-- The statistics over a queryset, as computed when the cache has no entry.
pub compute_stats : List Order → Stats
unfolding sum_totals newest_first
compute_stats orders = record {
  total_orders = length orders;
  total_amount = sum_totals orders;
  by_status = λ s. count_status s orders;
  recent_orders = take 10 (newest_first orders);
}
