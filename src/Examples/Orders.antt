-- ===== src/Examples/Orders.antt =====
-- Examples for the theorems on orders.
use python_diplom.Integrity.{IsLinked}
use python_diplom.Integrity.NewOrders.{create_order-IsLinked}
use python_diplom.Examples.Deletions.{shop-IsLinked}
use python_diplom.Orders.Partial.{failed_create_leaves_order}
use python_diplom.Base.{
  ◌^◌, ltb, ◌≡◌, refl, ◌↔◌, true, false, none, some, List, [], ◌∷◌, All, is_nil, arith,
}
use python_diplom.Exn.{err, invalid_operation, ok}
use python_diplom.Table.{insert, update, get}
use python_diplom.Models.{Order, Status, order_model}
use python_diplom.Base.Int.{negsuc, ◌+ℤ◌, ◌*ℤ◌, pos}
use python_diplom.Orders.{
  Columns, create_order, insert_order, add_items, add_line, create_item, store_total, save_order,
  ItemData, OrderData, validate_items, create, order_row, insert_order, add_items, add_line,
  create_item,
}
use python_diplom.Orders.Validation.{IsOrderable, validate_items_iff}
use python_diplom.Orders.Creation.{IsConsistent, Created, create-Created}
use python_diplom.Orders.Steps.{with_order}
use python_diplom.OrderViews.{get_object}
use python_diplom.Orders.Success.{expected, queued, create_order_succeeds}
use python_diplom.OrderViews.Visibility.{sees, get_object_iff}
use python_diplom.OrderViews.Lifecycle.{
  Call, confirm_call, cancel_call, destroy_call, after_all, after_all-IsConsistent,
  delivered_then_cancelled,
}
use python_diplom.OrderViews.Sent.{sent_untouched}
use python_diplom.Examples.{wide, shop, anna, boris, boris_profile, tea, delivered_order, pos}

abbrev two_packets : List ItemData
two_packets = record { product = some tea; quantity = some 2; price = none } ∷ []

abbrev fields : OrderData
fields = record { status = none; delivery_address = ""; contact_phone = ""; notes = "" }

shop-IsConsistent : IsConsistent shop
unfolding ◌+ℤ◌ ◌*ℤ◌
shop-IsConsistent = record {
  keyed = record { below = (omega arith, tt); distinct = (tt, tt) };
  below = (omega arith, tt);
  totals = (refl, tt);
  lines = (refl, tt);
}

-- Anna's order of two packets.
abbrev new_order : Order
new_order = record (order_row 1 fields "ORDBBBBBBBBBB" 200 12) { total_amount = pos 500 }

new_order-created : (create 1 fields two_packets "BBBBBBBBBB" 200 shop).0 ≡ ok new_order
unfolding create insert_order add_items add_line create_item store_total save_order insert update
    ◌+ℤ◌ ◌*ℤ◌
new_order-created = refl

create-Created_example :
    Created 1 two_packets new_order shop (create 1 fields two_packets "BBBBBBBBBB" 200 shop).1
create-Created_example =
    create-Created 1 fields two_packets "BBBBBBBBBB" 200 new_order shop shop-IsConsistent
      new_order-created

-- Boris confirms the order, Anna cancels it, and then Anna deletes it.
abbrev calls : List Call
calls = confirm_call boris 11 300 ∷ cancel_call anna 11 ∷ destroy_call anna 11 ∷ []

after_all-IsConsistent_example : IsConsistent (after_all calls shop)
after_all-IsConsistent_example = after_all-IsConsistent calls shop shop-IsConsistent

get_object_iff_example :
    (get_object boris 11 shop ≡ ok delivered_order)
    ↔ ((get 11 shop.orders ≡ some delivered_order) × (sees boris delivered_order shop ≡ true))
get_object_iff_example = get_object_iff boris 11 shop delivered_order shop-IsConsistent.keyed

-- Anna cannot cancel the delivered order herself.
sent_untouched_example :
    get 11 (after_all (cancel_call anna 11 ∷ []) shop).orders ≡ some delivered_order
sent_untouched_example =
    sent_untouched (cancel_call anna 11 ∷ []) shop 11 delivered_order shop-IsConsistent (tt, tt)
      refl refl

delivered_then_cancelled_example :
    get 11 (after_all (confirm_call boris 11 300 ∷ cancel_call anna 11 ∷ []) shop).orders
    ≡ some (record delivered_order { status = Status.cancelled; confirmed_at = some 300 })
delivered_then_cancelled_example =
    delivered_then_cancelled boris anna boris_profile 300 delivered_order shop
      shop-IsConsistent.keyed refl refl refl refl refl refl refl

validate_items_iff_example :
    (validate_items two_packets ≡ ok two_packets)
    ↔ ((is_nil two_packets ≡ false) × All IsOrderable two_packets)
validate_items_iff_example = validate_items_iff two_packets

create_order_succeeds_example : create_order anna fields two_packets "BBBBBBBBBB" 200 shop ≡ (
  ok (expected 1 fields two_packets "BBBBBBBBBB" 200 shop),
  queued
      (expected 1 fields two_packets "BBBBBBBBBB" 200 shop)
      (create 1 fields two_packets "BBBBBBBBBB" 200 shop).1,
)
create_order_succeeds_example =
    create_order_succeeds anna fields two_packets "BBBBBBBBBB" 200 shop refl
      ((omega arith, omega arith), tt) ((refl, refl), tt) refl refl

create_order-IsLinked_example :
    IsLinked (create_order anna fields two_packets "BBBBBBBBBB" 200 shop).1
create_order-IsLinked_example =
    create_order-IsLinked anna fields two_packets "BBBBBBBBBB" 200 shop shop-IsLinked refl
      ((refl, refl), tt)

-- Columns that take as many decimal digits as they are declared with.
abbrev by_digits : Columns
by_digits = record {
  fits =
      λ digits amount. elim amount [ pos n ↦ ltb n (10 ^ digits) | negsuc n ↦ ltb n (10 ^ digits) ];
}

-- Two packets at a price of eleven digits.
failed_create_leaves_order_example :
    create ⦃c = by_digits⦄ 1 fields
      (record { product = some tea; quantity = some 2; price = some (pos 12345678901) } ∷ [])
      "BBBBBBBBBB"
      200
      shop
    ≡ (err invalid_operation, with_order 1 fields "ORDBBBBBBBBBB" 200 shop)
failed_create_leaves_order_example =
    failed_create_leaves_order ⦃c = by_digits⦄ 1 fields tea 2 (some (pos 12345678901)) []
      "BBBBBBBBBB" 200 shop refl refl
