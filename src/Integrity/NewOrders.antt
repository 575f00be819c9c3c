-- ===== src/Integrity/NewOrders.antt =====
-- The creation of an order leaves no foreign key without its row.
use Prim.Native.String
use python_diplom.Base.{
  ℕ, ◌≡◌, refl, sym, Bool, true, String, Option, none, some, List, [], ◌∷◌, any, All, All-append,
  arith, ◌==◌, ◌&&◌, Bool-cases, inl, inr, or_default,
}
use mathlib.Core.Path.{subst}
use python_diplom.Base.Int.{ℤ, ◌+ℤ◌, ◌*ℤ◌, pos}
use python_diplom.Exn.{Result, ok, err}
use python_diplom.Table.{Table, insert, update}
use python_diplom.Models.{Db, User, Product, Order, OrderItem, Task, order_model, item_model}
use python_diplom.Action.{Action, then_run}
use python_diplom.Orders.{
  Columns, ItemData, OrderData, item_row, order_row, create_item, add_line, add_items, save_order,
  store_total, create, create_order, validate_items,
}
use python_diplom.Orders.Steps.{insert_order-cases, with_order}
use python_diplom.Table.Presence.{All-replaced, any-append_last}
use python_diplom.Integrity.Links.{Refers-append, Refers-replace}
use python_diplom.Integrity.{Refers, IsLinked}

-- What stays as it is while an order of a client is created: the foreign keys, the client, and which
-- products and suppliers are there.
record IsUnder (client : ℕ) (before db : Db) : Type 0 where
  linked : IsLinked db
  by_client : any (λ u. u.id == client) db.users.rows ≡ true
  products : db.products ≡ before.products
  suppliers : db.suppliers ≡ before.suppliers

abbrev has_order : ℕ → Db → Bool
has_order order db = any (λ o. o.id == order) db.orders.rows

-- The entry names a stored product of a stored supplier.
abbrev pub IsSold : Db → Option Product → Type 0
IsSold db none = Unit
IsSold db (some p) =
    (any (λ q. q.id == p.id) db.products.rows ≡ true)
    × (any (λ s. s.id == p.supplier) db.suppliers.rows ≡ true)

module _ (client : ℕ) (before db : Db) (was : IsUnder client before db) where
  -- The tables of orders and items, and the queue, may change.
  with_tables :
      (orders : Table Order) (items : Table OrderItem) (queue : List Task)
      → Refers (λ o. o.client) (λ u. u.id) orders.rows db.users.rows
      → Refers (λ i. i.order) (λ o. o.id) items.rows orders.rows
      → Refers (λ i. i.product) (λ p. p.id) items.rows db.products.rows
      → Refers (λ i. i.supplier) (λ s. s.id) items.rows db.suppliers.rows
      → IsUnder client before (record db { orders = orders; items = items; queue = queue })
  with_tables orders items queue a b c d = record {
    linked = record {
      profiles = was.linked.profiles;
      one_profile = was.linked.one_profile;
      sellers = was.linked.sellers;
      kinds = was.linked.kinds;
      pictures = was.linked.pictures;
      valued = was.linked.valued;
      named = was.linked.named;
      importers = was.linked.importers;
      clients = a;
      ordered_in = b;
      ordered = c;
      sold_by = d;
    };
    by_client = was.by_client;
    products = was.products;
    suppliers = was.suppliers;
  }

  with_order-IsUnder :
      (fields : OrderData) (number : String) (now : ℕ)
      → IsUnder client before (with_order client fields number now db)
        × (has_order db.orders.next_id (with_order client fields number now db) ≡ true)
  unfolding insert
  with_order-IsUnder fields number now =
      let row = order_row client fields number now db.orders.next_id in
      (
        with_tables (insert (order_row client fields number now) db.orders).1 db.items db.queue
            (All-append (λ (o : Order). any (λ u. u.id == o.client) db.users.rows ≡ true)
              db.orders.rows (row ∷ []) was.linked.clients (was.by_client, tt))
            (Refers-append (λ (i : OrderItem). i.order) (λ (o : Order). o.id) db.items.rows
              db.orders.rows (row ∷ []) was.linked.ordered_in)
            was.linked.ordered was.linked.sold_by,
        any-append_last (λ (o : Order). o.id == db.orders.next_id) db.orders.rows row
            (ground arith),
      )

  module _ ⦃c : Columns⦄ where
    create_item-IsUnder :
        (order : ℕ) (p : Product) (quantity : ℕ) (price : ℤ)
        → has_order order db ≡ true
        → IsSold before (some p)
        → IsUnder client before (create_item order p quantity price db).1
          × (has_order order (create_item order p quantity price db).1 ≡ true)
    unfolding create_item insert
    create_item-IsUnder order p quantity price here sold =
        let item = item_row order p quantity price db.items.next_id in
        elim (Bool-cases (c.fits 10 price && c.fits 12 (quantity *ℤ price))) [
          | inr e ↦ rw e (was, here)
          | inl e ↦ rw e (
            with_tables db.orders (insert (item_row order p quantity price) db.items).1 db.queue
                was.linked.clients
                (All-append (λ (i : OrderItem). any (λ o. o.id == i.order) db.orders.rows ≡ true)
                  db.items.rows (item ∷ []) was.linked.ordered_in (here, tt))
                (All-append
                  (λ (i : OrderItem). any (λ q. q.id == i.product) db.products.rows ≡ true)
                  db.items.rows (item ∷ []) was.linked.ordered (rw was.products sold.0, tt))
                (All-append
                  (λ (i : OrderItem). any (λ s. s.id == i.supplier) db.suppliers.rows ≡ true)
                  db.items.rows (item ∷ []) was.linked.sold_by (rw was.suppliers sold.1, tt)),
            here,
          )
        ]

    store_total-IsUnder :
        (o : Order) (total : ℤ)
        → o.client ≡ client
        → IsUnder client before (store_total o total db).1
    unfolding store_total save_order update
    store_total-IsUnder o total owner =
        let saved = record o { total_amount = total } in
        elim (Bool-cases (c.fits 12 total)) [
          | inr e ↦ rw e was
          | inl e ↦ rw e (
              with_tables (update saved db.orders) db.items db.queue
                (All-replaced (λ x. any (λ u. u.id == x.client) db.users.rows ≡ true) saved
                  db.orders.rows (rw owner was.by_client) was.linked.clients)
                (Refers-replace (λ (i : OrderItem). i.order) db.items.rows db.orders.rows saved
                  was.linked.ordered_in)
                was.linked.ordered was.linked.sold_by)
        ]

-- Either way a step ends, what holds after it and after what follows holds at the end.
then_run-keeps :
    {A B : Type 0} (P : Db → Type 0) (r : Result A) (f : A → Action B) (db : Db)
    → P db
    → ((a : A) → r ≡ ok a → P (f a db).1)
    → P (then_run r f db).1
then_run-keeps P (ok a) f db p more = more a refl
then_run-keeps P (err e) f db p more = p

module _ ⦃c : Columns⦄ (client order : ℕ) (before : Db) where
  abbrev Keeps : Db → Type 0
  Keeps db = IsUnder client before db × (has_order order db ≡ true)

  add_line-keeps :
      (product : Option Product) (quantity : Option ℕ) (price : Option ℤ) (db : Db)
      → Keeps db
      → IsSold before product
      → Keeps (add_line order product quantity price db).1
  unfolding add_line
  add_line-keeps none quantity price db k sold = k
  add_line-keeps (some p) none price db k sold = k
  add_line-keeps (some p) (some q) price db k sold =
      let after = create_item order p q (or_default p.price price) db in
      let kept =
        create_item-IsUnder client before db k.0 order p q (or_default p.price price) k.1 sold in
      then_run-keeps Keeps after.0 _ after.1 kept (λ a e. kept)

  add_items-keeps :
      (given : List ItemData) (total : ℤ) (db : Db)
      → Keeps db
      → All (λ i. IsSold before i.product) given
      → Keeps (add_items order given total db).1
  unfolding add_items
  add_items-keeps [] total db k sold = k
  add_items-keeps (item ∷ rest) total db k sold =
      let after = add_line order item.product item.quantity item.price db in
      let kept = add_line-keeps item.product item.quantity item.price db k sold.0 in
      then_run-keeps Keeps after.0 _ after.1 kept
        (λ line e. add_items-keeps rest (total +ℤ line) after.1 kept sold.1)

validate_items_same :
    (given valid : List ItemData) → validate_items given ≡ ok valid → valid ≡ given
unfolding validate_items
validate_items_same given valid h = ground arith

module _ ⦃c : Columns⦄ where
  create-IsUnder :
      (client : ℕ) (fields : OrderData) (given : List ItemData) (code : String) (now : ℕ) (db : Db)
      → IsUnder client db db
      → All (λ i. IsSold db i.product) given
      → IsUnder client db (create client fields given code now db).1
  unfolding create
  create-IsUnder client fields given code now db was sold =
      let number : String = String.◌++◌ "ORD" code in
      let n = db.orders.next_id in
      elim (insert_order-cases client fields number now db) [
        | inr (_, e) ↦ rw e was
        | inl e ↦
            let start = with_order client fields number now db in
            let after = add_items n given (pos 0) start in
            let kept =
              add_items-keeps client n db given (pos 0) start
                (with_order-IsUnder client db db was fields number now) sold in
            rw e (
              then_run-keeps (IsUnder client db) after.0 _ after.1 kept.0 (λ total h.
                store_total-IsUnder client db after.1 kept.0 (order_row client fields number now n)
                  total refl))
      ]

  -- However the creation of an order ends, also if it raises half-way: if every foreign key found its
  -- row, no user had two profiles, the caller is stored, and the entries name stored products of
  -- stored suppliers, every foreign key finds its row afterwards, and no user has two profiles.
  pub create_order-IsLinked :
      (user : User) (fields : OrderData) (given : List ItemData) (code : String) (now : ℕ) (db : Db)
      → IsLinked db
      → any (λ u. u.id == user.id) db.users.rows ≡ true
      → All (λ i. IsSold db i.product) given
      → IsLinked (create_order user fields given code now db).1
  unfolding create_order
  create_order-IsLinked user fields given code now db l stored sold =
      let was : IsUnder user.id db db = record {
        linked = l;
        by_client = stored;
        products = refl;
        suppliers = refl;
      } in
      then_run-keeps IsLinked (validate_items given) _ db l (λ valid e.
        let made = create user.id fields valid code now db in
        let kept = create-IsUnder user.id fields valid code now db was (
          subst (λ x. All (λ i. IsSold db i.product) x) (sym (validate_items_same given valid e))
            sold) in
        then_run-keeps IsLinked made.0 _ made.1 kept.linked (λ order h.
          (with_tables user.id db made.1 kept made.1.orders made.1.items _ kept.linked.clients
            kept.linked.ordered_in kept.linked.ordered kept.linked.sold_by).linked))
