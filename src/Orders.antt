-- ===== src/Orders.antt =====
-- Orders: `OrderSerializer` of orders/backend/serializers.py, `Order.calculate_total` and
-- `OrderItem.save` of orders/backend/models.py, and `OrderViewSet` of orders/backend/views.py.
pub mod Validation
pub mod Totals
pub mod Ownership
pub mod Steps
pub mod Creation
pub mod Success
pub mod Partial
use Prim.Native.String
use python_diplom.Base.{
  ℕ, String, Bool, ◌&&◌, Option, none, some, List, [], ◌∷◌, ◌++◌, keep, any, is_nil, str_eq, ◌==◌,
  ltb, leb, if◌then◌else◌, or_default,
}
use python_diplom.Base.Int.{ℤ, pos, ◌+ℤ◌, ◌*ℤ◌}
use python_diplom.Exn.{
  Result, ok, err, validation_error, key_error, integrity_error, invalid_operation,
}
use python_diplom.Text.{show}
use python_diplom.Table.{insert, update}
use python_diplom.Models.{
  order_model, item_model, Db, User, Order, OrderItem, Product, Status, Task,
}
use python_diplom.Action.{Action, pure, raise, some_or, gets, modify, ◌>>=◌, ◌>>◌}

-- What the column of a `DecimalField(max_digits, decimal_places=2)` takes, in hundredths.
pub record Columns : Type 0 where
  pub fits : ℕ → ℤ → Bool

-- One validated entry of `items`: the fields that `validate_items` and `create` read.
pub record ItemData : Type 0 where
  pub product : Option Product
  pub quantity : Option ℕ
  pub price : Option ℤ

-- The other validated fields of a new order; `client` is set by `perform_create`.
pub record OrderData : Type 0 where
  pub status : Option Status
  pub delivery_address : String
  pub contact_phone : String
  pub notes : String

-- The validated fields of a PUT or a PATCH; a field that is not sent is `none`.
pub record OrderPatch : Type 0 where
  pub client : Option ℕ
  pub status : Option Status
  pub delivery_address : Option String
  pub contact_phone : Option String
  pub notes : Option String
  pub items : Option (List ItemData)

pub data Reply : Type 0 where
  message error : String → Reply

-- One round of the loop of `validate_items`.
pub check_item : ItemData → Result (Unit {0})
check_item item = elim item.product [
  | none ↦ err (validation_error "items" "Товар обязателен для каждой позиции.")
  | some product ↦
      if leb (or_default 0 item.quantity) 0
      then err (validation_error "items" "Количество должно быть положительным.")
      else if ltb product.stock_quantity (or_default 0 item.quantity)
      then err (
          validation_error "items" (
            String.◌++◌ "Недостаточно товара " (
              String.◌++◌ product.name
                (String.◌++◌ " на складе. Доступно: " (show product.stock_quantity)))))
      else ok tt
]

pub check_items : List ItemData → Result (Unit {0})
unfolding check_item
check_items [] = ok tt
check_items (item ∷ rest) = elim (check_item item) [ ok _ ↦ check_items rest | err e ↦ err e ]

-- `validate_items`
unfoldable pub validate_items : List ItemData → Result (List ItemData)
unfolding check_items
validate_items value =
    if is_nil value
    then err (validation_error "items" "Заказ должен содержать хотя бы одну позицию.")
    else elim (check_items value) [ ok _ ↦ ok value | err e ↦ err e ]

-- `order.items.all()`
abbrev pub items_of : ℕ → Db → List OrderItem
items_of order db = keep (λ i. i.order == order) db.items.rows

-- `sum(item.quantity * item.price for item in items)`
abbrev pub sum_from : ℤ → List OrderItem → ℤ
sum_from acc [] = acc
sum_from acc (i ∷ rest) = sum_from (acc +ℤ i.quantity *ℤ i.price) rest

-- The row that `OrderItem.save` writes.
abbrev pub item_row : ℕ → Product → ℕ → ℤ → ℕ → OrderItem
item_row order product quantity price id = record {
  id = id;
  order = order;
  product = product.id;
  supplier = product.supplier;
  quantity = quantity;
  price = price;
  subtotal = quantity *ℤ price;
}

-- The row of a new order; `total_amount` has its default.
abbrev pub order_row : ℕ → OrderData → String → ℕ → ℕ → Order
order_row client fields order_number now id = record {
  id = id;
  client = client;
  order_number = order_number;
  status = or_default Status.pending fields.status;
  total_amount = pos 0;
  delivery_address = fields.delivery_address;
  contact_phone = fields.contact_phone;
  notes = fields.notes;
  created_at = now;
  confirmed_at = none;
}

module _ ⦃c : Columns⦄ where
  -- `order.save()` of a stored order
  unfoldable pub save_order : Order → Action (Unit {0})
  save_order order db =
      if c.fits 12 order.total_amount
      then (ok tt, record db { orders = update order db.orders })
      else (err invalid_operation, db)

  -- `Order.calculate_total`
  unfoldable pub calculate_total : Order → Action (Unit {0})
  unfolding save_order
  calculate_total order = do
    items ← gets (items_of order.id)
    save_order (record order { total_amount = sum_from (pos 0) items })

  -- `OrderItem.objects.create(…)` with `OrderItem.save`, which sets `subtotal` and `supplier`
  unfoldable pub create_item : ℕ → Product → ℕ → ℤ → Action (Unit {0})
  create_item order product quantity price db =
      if c.fits 10 price && c.fits 12 (quantity *ℤ price)
      then (
        ok tt,
        record db { items = (insert (item_row order product quantity price) db.items).1 },
      )
      else (err invalid_operation, db)

  -- one round of the loop over `items_data`: `product`, `quantity` and `price` are the entries of
  -- `item_data`; it returns what it adds to `total_amount`
  unfoldable pub add_line : ℕ → Option Product → Option ℕ → Option ℤ → Action ℤ
  unfolding create_item
  add_line order none quantity price = raise (key_error "product")
  add_line order (some product) none price = raise (key_error "quantity")
  add_line order (some product) (some quantity) price = do
    create_item order product quantity (or_default product.price price)
    pure (quantity *ℤ or_default product.price price)

  -- the loop, with `total_amount` so far
  unfoldable pub add_items : ℕ → List ItemData → ℤ → Action ℤ
  add_items order [] total = pure total
  add_items order (item ∷ rest) total = do
    line ← add_line order item.product item.quantity item.price
    add_items order rest (total +ℤ line)

  -- `Order.objects.create(order_number=…, **validated_data)`
  unfoldable pub insert_order : ℕ → OrderData → String → ℕ → Action Order
  insert_order client fields order_number now db =
      let (order, orders) = insert (order_row client fields order_number now) db.orders in
      if any (λ o. str_eq o.order_number order_number) db.orders.rows
      then (err integrity_error, db)
      else (ok order, record db { orders = orders })

  -- the end of `create`: `order.total_amount = total_amount`, `order.save()`, `return order`
  unfoldable pub store_total : Order → ℤ → Action Order
  store_total order total = do
    save_order (record order { total_amount = total })
    pure (record order { total_amount = total })

  -- `OrderSerializer.create`; `code` is what `get_random_string(10).upper()` returns
  unfoldable pub create : ℕ → OrderData → List ItemData → String → ℕ → Action Order
  create client fields items code now = do
    order ← insert_order client fields (String.◌++◌ "ORD" code) now
    total ← add_items order.id items (pos 0)
    store_total order total

  -- `OrderViewSet.create` behind its permission: validation of the items, and `perform_create`
  unfoldable pub create_order : User → OrderData → List ItemData → String → ℕ → Action Order
  create_order user fields items code now = do
    valid ← (λ db. (validate_items items, db))
    order ← create user.id fields valid code now
    modify (λ db. record db {
      queue =
          db.queue
          ++ Task.send_order_confirmation_email order.id ∷ Task.send_invoice_email order.id ∷ [];
    })
    pure order
