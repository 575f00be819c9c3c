-- ===== src/Integrity/Deletions.antt =====
-- No deletion leaves a foreign key without its row.
use python_diplom.Base.{
  none_pass, none_pass_or, ℕ, ◌≡◌, ◌≢◌, refl, Bool, true, false, not, ◌||◌, ◌==◌, some, List, [],
  ◌∷◌, any, keep, find, All, All-zip, Bool-cases, inl, inr, arith,
}
use python_diplom.Exn.{Result-cases}
use python_diplom.Table.{delete}
use python_diplom.Table.Unique.{Unique}
use python_diplom.Models.{
  Db, User, Supplier, Product, OrderItem, user_model, supplier_model, product_model, image_model,
  value_model, order_model, item_model, log_model,
}
use python_diplom.OrderViews
use python_diplom.OrderViews.{get_object}
use python_diplom.Products.{delete_product}
use python_diplom.SupplierViews
use python_diplom.SupplierViews.{delete_supplier}
use python_diplom.UserViews
use python_diplom.UserViews.{delete_user, in_profile}
use python_diplom.Integrity.{IsLinked}
use python_diplom.Integrity.Links.{
  Refers-keep, Refers-delete, Refers-by_row, Refers-by_key, Refers-with_targets, Refers-free,
  Unique-keep,
}

pub delete_product-IsLinked :
    (p : Product) (db : Db) → IsLinked db → IsLinked (delete_product p db).1
unfolding delete_product delete
delete_product-IsLinked p db l = elim (Bool-cases (any (λ i. i.product == p.id) db.items.rows)) [
  | inl b ↦ rw (b, delete_product) l
  | inr b ↦
      rw (b, delete_product)
        (record {
          profiles = l.profiles;
          one_profile = l.one_profile;
          sellers = Refers-keep _ _ _ db.products.rows db.suppliers.rows l.sellers;
          kinds = Refers-keep _ _ _ db.products.rows db.categories.rows l.kinds;
          pictures = Refers-by_key _ _ (λ k. k == p.id) db.images.rows db.products.rows l.pictures;
          valued =
              Refers-by_key _ _ (λ k. k == p.id) db.product_attributes.rows db.products.rows
                l.valued;
          named = Refers-keep _ _ _ db.product_attributes.rows db.attributes.rows l.named;
          importers = l.importers;
          clients = l.clients;
          ordered_in = l.ordered_in;
          ordered =
              Refers-free _ _ (λ k. k == p.id) db.items.rows db.products.rows
                (none_pass (λ i. i.product == p.id) db.items.rows b) l.ordered;
          sold_by = l.sold_by;
        })
]

pub delete_supplier-IsLinked :
    (s : Supplier) (db : Db) → IsLinked db → IsLinked (delete_supplier s db).1
unfolding delete_supplier delete
delete_supplier-IsLinked s db l =
    let stock : ℕ → Bool = λ k. SupplierViews.in_stock_of s.id db k in
    elim (Bool-cases (any (λ i. (i.supplier == s.id) || stock i.product) db.items.rows)) [
      | inl b ↦ rw (b, delete_supplier) l
      | inr b ↦
          let free =
            none_pass_or (λ i. i.supplier == s.id) (λ i. stock i.product) db.items.rows b in
          rw (b, delete_supplier)
            (record {
              profiles = Refers-keep _ _ _ db.suppliers.rows db.users.rows l.profiles;
              one_profile = Unique-keep _ _ db.suppliers.rows l.one_profile;
              sellers =
                  Refers-by_key _ _ (λ k. k == s.id) db.products.rows db.suppliers.rows l.sellers;
              kinds = Refers-keep _ _ _ db.products.rows db.categories.rows l.kinds;
              pictures =
                  Refers-with_targets _ _ (λ p. p.supplier == s.id) db.images.rows db.products.rows
                    l.pictures;
              valued =
                  Refers-with_targets _ _ (λ p. p.supplier == s.id) db.product_attributes.rows
                    db.products.rows l.valued;
              named = Refers-keep _ _ _ db.product_attributes.rows db.attributes.rows l.named;
              importers =
                  Refers-by_key _ _ (λ k. k == s.id) db.logs.rows db.suppliers.rows l.importers;
              clients = l.clients;
              ordered_in = l.ordered_in;
              ordered =
                  Refers-delete _ _ (λ p. p.supplier == s.id) db.items.rows db.products.rows
                    l.ordered free.1;
              sold_by =
                  Refers-free _ _ (λ k. k == s.id) db.items.rows db.suppliers.rows free.0 l.sold_by;
            })
    ]

-- A user's only profile is the one that `supplier_profile` finds.
only_profile :
    (user : ℕ) (xs : List Supplier)
    → Unique (λ (s : Supplier). s.user) xs
    → All (λ s. (s.user == user) ≡ true → find (λ x. x.user == user) xs ≡ some s) xs
only_profile user [] u = tt
only_profile user (s ∷ xs) u = (
  λ b. rw b refl,
  All-zip (λ y. s.user ≢ y.user)
      (λ y. (y.user == user) ≡ true → find (λ x. x.user == user) xs ≡ some y)
      (λ y. (y.user == user) ≡ true → find (λ x. x.user == user) (s ∷ xs) ≡ some y) xs
      (λ y ne found b. ground (arith, ne, b, found b)) u.0 (only_profile user xs u.1),
)

other_profile :
    (u : User) (db : Db)
    → Unique (λ (s : Supplier). s.user) db.suppliers.rows
    → All (λ s. in_profile u db s.id ≡ false → (s.user == u.id) ≡ false) db.suppliers.rows
other_profile u db one =
    All-zip Found Found (λ s. in_profile u db s.id ≡ false → (s.user == u.id) ≡ false)
      db.suppliers.rows (λ s found _ h. other s found h) (only_profile u.id db.suppliers.rows one)
      (only_profile u.id db.suppliers.rows one)
  where
    Found : Supplier → Type 0
    Found s = (s.user == u.id) ≡ true → find (λ x. x.user == u.id) db.suppliers.rows ≡ some s

    other : (s : Supplier) → Found s → in_profile u db s.id ≡ false → (s.user == u.id) ≡ false
    other s found h = elim (Bool-cases (s.user == u.id)) [
      | inl b ↦ absurd (ground (arith, rw (found b, in_profile) at h))
      | inr b ↦ b
    ]

pub delete_user-IsLinked : (u : User) (db : Db) → IsLinked db → IsLinked (delete_user u db).1
unfolding delete_user delete
delete_user-IsLinked u db l =
    let stock : ℕ → Bool = λ k. UserViews.in_stock_of u db k in
    elim (Bool-cases (any (λ i. in_profile u db i.supplier || stock i.product) db.items.rows)) [
      | inl b ↦ rw (b, delete_user) l
      | inr b ↦
          let free =
            none_pass_or (λ i. in_profile u db i.supplier) (λ i. stock i.product) db.items.rows b in
          rw (b, delete_user)
            (record {
              profiles =
                  Refers-by_row _ _ (λ k. k == u.id) (λ s. in_profile u db s.id) db.suppliers.rows
                    db.users.rows (other_profile u db l.one_profile) l.profiles;
              one_profile = Unique-keep _ _ db.suppliers.rows l.one_profile;
              sellers =
                  Refers-by_key _ _ (in_profile u db) db.products.rows db.suppliers.rows l.sellers;
              kinds = Refers-keep _ _ _ db.products.rows db.categories.rows l.kinds;
              pictures =
                  Refers-with_targets _ _ (λ p. in_profile u db p.supplier) db.images.rows
                    db.products.rows l.pictures;
              valued =
                  Refers-with_targets _ _ (λ p. in_profile u db p.supplier)
                    db.product_attributes.rows db.products.rows l.valued;
              named = Refers-keep _ _ _ db.product_attributes.rows db.attributes.rows l.named;
              importers =
                  Refers-by_key _ _ (in_profile u db) db.logs.rows db.suppliers.rows l.importers;
              clients = Refers-by_key _ _ (λ k. k == u.id) db.orders.rows db.users.rows l.clients;
              ordered_in =
                  Refers-with_targets _ _ (λ o. o.client == u.id) db.items.rows db.orders.rows
                    l.ordered_in;
              ordered =
                  Refers-keep (λ (i : OrderItem). i.product) (λ (p : Product). p.id) _ db.items.rows
                    (keep (λ p. not (in_profile u db p.supplier)) db.products.rows)
                    (Refers-delete _ _ (λ p. in_profile u db p.supplier) db.items.rows
                      db.products.rows l.ordered free.1);
              sold_by =
                  Refers-keep (λ (i : OrderItem). i.supplier) (λ (t : Supplier). t.id) _
                    db.items.rows (keep (λ t. not (in_profile u db t.id)) db.suppliers.rows)
                    (Refers-free _ _ (in_profile u db) db.items.rows db.suppliers.rows free.0
                      l.sold_by);
            })
    ]

pub delete_order-IsLinked :
    (caller : User) (pk : ℕ) (db : Db) → IsLinked db → IsLinked (OrderViews.destroy caller pk db).1
unfolding OrderViews.destroy delete
delete_order-IsLinked caller pk db l = elim (Result-cases (get_object caller pk db)) [
  | inr (e, h) ↦ rw (h, OrderViews.destroy) l
  | inl (o, h) ↦
      rw (h, OrderViews.destroy)
        (record {
          profiles = l.profiles;
          one_profile = l.one_profile;
          sellers = l.sellers;
          kinds = l.kinds;
          pictures = l.pictures;
          valued = l.valued;
          named = l.named;
          importers = l.importers;
          clients = Refers-keep _ _ _ db.orders.rows db.users.rows l.clients;
          ordered_in = Refers-by_key _ _ (λ k. k == o.id) db.items.rows db.orders.rows l.ordered_in;
          ordered = Refers-keep _ _ _ db.items.rows db.products.rows l.ordered;
          sold_by = Refers-keep _ _ _ db.items.rows db.suppliers.rows l.sold_by;
        })
]
