-- ===== src/Orders/Totals.antt =====
-- The total of an order is the sum over its items.
use python_diplom.Base.{
  ℕ, suc, ◌≡◌, refl, sym, ap, ◌∙◌, Option, none, some, List, [], ◌∷◌, ◌++◌, length, All, arith,
  or_default,
}
use mathlib.Core.List.{append-nil, append_assoc}
use python_diplom.Base.Int.{ℤ, pos, ◌+ℤ◌, ◌*ℤ◌, int_laws}
use python_diplom.Exn.{Result, ok, err, ok-injective}
use python_diplom.Table.{insert}
use python_diplom.Models.{Db, OrderItem, Product, order_model, item_model}
use python_diplom.Action.{then_run}
use python_diplom.Orders.{Columns, ItemData, sum_from, add_line, item_row, add_items}

-- The amount of a list of items, as a plain sum.
abbrev pub amount : List OrderItem → ℤ
amount [] = pos 0
amount (i ∷ rest) = i.quantity *ℤ i.price +ℤ amount rest

pub sum_from-eq-amount : (acc : ℤ) (is : List OrderItem) → sum_from acc is ≡ acc +ℤ amount is
sum_from-eq-amount acc [] = omega int_laws
sum_from-eq-amount acc (i ∷ is) =
    rw (sum_from-eq-amount (acc +ℤ i.quantity *ℤ i.price) is) (omega int_laws)

amount-append : (xs ys : List OrderItem) → amount (xs ++ ys) ≡ amount xs +ℤ amount ys
amount-append [] ys = omega int_laws
amount-append (i ∷ xs) ys = rw (amount-append xs ys) (omega int_laws)

-- The line's subtotal is what `OrderItem.save` computes.
abbrev pub IsLine : OrderItem → Type 0
IsLine i = i.subtotal ≡ i.quantity *ℤ i.price

-- What the loop over `items_data` has done when it ends: `new` are the rows that it inserted.
pub record Added (order : ℕ) (given : List ItemData) (start : ℤ) (end : ℤ) (db db' : Db)
    : Type 0 where
  pub new : List OrderItem
  pub rows : db'.items.rows ≡ db.items.rows ++ new
  pub orders : db'.orders ≡ db.orders
  pub total : end ≡ start +ℤ amount new
  pub own : All (λ i. i.order ≡ order) new
  pub lines : All IsLine new
  pub count : length new ≡ length given

-- The same of one round.
record AddedOne (order : ℕ) (line : ℤ) (db db' : Db) : Type 0 where
  new : OrderItem
  rows : db'.items.rows ≡ db.items.rows ++ new ∷ []
  orders : db'.orders ≡ db.orders
  total : line ≡ new.quantity *ℤ new.price
  own : new.order ≡ order
  lines : IsLine new

one-more :
    (order : ℕ) (item : ItemData) (rest : List ItemData) (start line end : ℤ) (db db₁ db' : Db)
    → AddedOne order line db db₁
    → Added order rest (start +ℤ line) end db₁ db'
    → Added order (item ∷ rest) start end db db'
one-more order item rest start line end db db₁ db' one more = record {
  new = one.new ∷ more.new;
  rows = more.rows ∙ (rw (one.rows, append_assoc) refl);
  orders = more.orders ∙ one.orders;
  total = rw (more.total, one.total) (omega int_laws);
  own = (one.own, more.own);
  lines = (one.lines, more.lines);
  count = ap suc more.count;
}

module _ ⦃c : Columns⦄ where
  add_line-AddedOne :
      (order : ℕ) (product : Option Product) (quantity : Option ℕ) (price : Option ℤ) (line : ℤ)
      (db : Db)
      → (add_line order product quantity price db).0 ≡ ok line
      → AddedOne order line db (add_line order product quantity price db).1
  unfolding add_line insert
  add_line-AddedOne order none quantity price line db h = absurd (ground arith)
  add_line-AddedOne order (some p) none price line db h = absurd (ground arith)
  add_line-AddedOne order (some p) (some q) price line db h = record {
    new = item_row order p q (or_default p.price price) db.items.next_id;
    rows = ground arith;
    orders = ground arith;
    total = ground arith;
    own = refl;
    lines = refl;
  }

  then_add-Added :
      (order : ℕ) (item : ItemData) (rest : List ItemData) (start end : ℤ) (db db₁ : Db)
      (r : Result ℤ)
      → ((line : ℤ) → r ≡ ok line → AddedOne order line db db₁)
      → ((line : ℤ)
          → (add_items order rest (start +ℤ line) db₁).0 ≡ ok end
          → Added order rest (start +ℤ line) end db₁ (add_items order rest (start +ℤ line) db₁).1)
      → (then_run r (λ line. add_items order rest (start +ℤ line)) db₁).0 ≡ ok end
      → Added order
          (item ∷ rest)
          start
          end
          db
          (then_run r (λ line. add_items order rest (start +ℤ line)) db₁).1
  then_add-Added order item rest start end db db₁ (ok line) one more h =
      one-more order item rest start line end db db₁ _ (one line refl) (more line h)
  then_add-Added order item rest start end db db₁ (err e) one more h = cc

  pub add_items-Added :
      (order : ℕ) (given : List ItemData) (start end : ℤ) (db : Db)
      → (add_items order given start db).0 ≡ ok end
      → Added order given start end db (add_items order given start db).1
  unfolding add_items
  add_items-Added order [] start end db h = record {
    new = [];
    rows = sym (append-nil db.items.rows);
    orders = refl;
    total = sym (ok-injective h) ∙ omega int_laws;
    own = tt;
    lines = tt;
    count = refl;
  }
  add_items-Added order (item ∷ rest) start end db h =
      let (r, db₁) = add_line order item.product item.quantity item.price db in
      then_add-Added order item rest start end db db₁ r
        (λ line e. add_line-AddedOne order item.product item.quantity item.price line db e)
        (λ line e. add_items-Added order rest (start +ℤ line) end db₁ e) h
