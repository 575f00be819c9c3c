-- ===== src/ProductViews/Rights.antt =====
-- Who may change a product through the API, what a deletion leaves behind, and what `my_products`
-- shows.
use mathlib.Core.Path.{subst}
use python_diplom.Table.Unique.{find_own_pk}
use python_diplom.Models.{
  UserType, client, supplier, admin, unset, Db, User, Product, Supplier, OrderItem, is_client,
  is_supplier, supplier_profile, product_model, supplier_model,
}
use python_diplom.Exn.{Result-cases, Result, ok, err, http404, or_raise, err-ne-ok, ok-injective}
use python_diplom.Base.{
  ℕ, Bool, true, false, Bool-cases, inl, inr, Option, none, some, List, [], ◌∷◌, map, keep, any,
  find, ◌==◌, ◌&&◌, not, ltb, is_some, ◌≡◌, refl, sym, ap, arith, All,
}
use python_diplom.Table.{has_pk, get, update, delete, IsWellKeyed}
use python_diplom.Table.Laws.{get-replace_self}
use python_diplom.Uploads.{Storage, product_queryset, get_product}
use python_diplom.Products.{ProductPatch, patched, update_product, delete_product}
use python_diplom.ProductViews.{
  patch_product, destroy, removed, my_products, is_users, product_view, many, one, reply,
}

find-keep :
    (q : Product → Bool) (k : ℕ) (xs : List Product) (p : Product)
    → find (λ a. a.id == k) (keep q xs) ≡ some p
    → (b : Product) × (find (has_pk k) xs ≡ some b)
find-keep q k [] p h = absurd (ground arith)
find-keep q k (x ∷ xs) p h = elim (Bool-cases (x.id == k)) [
  | inl b ↦ (x, ground (arith, b))
  | inr b ↦ elim (Bool-cases (q x)) [
    | inl c ↦ (let (y, e) = find-keep q k xs p (rw b at (rw c at h)) in (y, ground (arith, b, e)))
    | inr c ↦ (let (y, e) = find-keep q k xs p (rw c at h) in (y, ground (arith, b, e)))
  ]
]

or_raise-ok : (o : Option Product) (p : Product) → or_raise o http404 ≡ ok p → o ≡ some p
or_raise-ok none p h = absurd (err-ne-ok h)
or_raise-ok (some q) p h = ap some (ok-injective h)

stored-seen :
    (caller : User) (p : Product) (db : Db)
    → is_client caller.user_type ≡ true
    → get_product caller p.id db ≡ ok p
    → (b : Product) × (get p.id db.products ≡ some b)
unfolding get_product product_queryset
stored-seen caller p db c found =
    find-keep (λ p. p.is_active && ltb 0 p.stock_quantity) p.id db.products.rows p
      (or_raise-ok _ p (rw (c, product_queryset) at found))

module _ ⦃st : Storage⦄ where
  -- A client who sees a product can change its fields, also the price and the supplier, with the
  -- answer 200.
  pub edit_by_client :
      (caller : User) (p : Product) (d : ProductPatch) (db : Db)
      → is_client caller.user_type ≡ true
      → get_product caller p.id db ≡ ok p
      → d.attributes ≡ none
      → let (answer, db') = patch_product caller p.id d db in
        (answer ≡ reply 200 (one (product_view db' (patched d p))))
        × (get p.id db'.products ≡ some (patched d p))
  unfolding patch_product update_product update
  edit_by_client caller p d db c found none_given =
      let (b, stored) = stored-seen caller p db c found in
      (
        rw (found, patch_product, none_given, update_product) refl,
        rw (found, patch_product, none_given, update_product)
            (get-replace_self (patched d p) b db.products.rows stored),
      )

-- Every position of an order refers to a stored product.
abbrev pub HasProducts : Db → Type 0
HasProducts db = All (λ i. is_some (get i.product db.products) ≡ true) db.items.rows

find-delete_ne :
    (k id : ℕ) (xs : List Product)
    → (k == id) ≡ false
    → is_some (find (has_pk k) xs) ≡ true
    → is_some (find (has_pk k) (keep (λ q. not (q.id == id)) xs)) ≡ true
find-delete_ne k id [] ne h = h
find-delete_ne k id (x ∷ xs) ne h = ground (arith, find-delete_ne k id xs ne)

kept_products :
    (id : ℕ) (products : List Product) (items : List OrderItem)
    → any (λ i. i.product == id) items ≡ false
    → All (λ i. is_some (find (has_pk i.product) products) ≡ true) items
    → All
        (λ i. is_some (find (has_pk i.product) (keep (λ q. not (q.id == id)) products)) ≡ true)
        items
kept_products id products [] none_left h = tt
kept_products id products (i ∷ items) none_left h = (
  find-delete_ne i.product id products (ground arith) h.0,
  kept_products id products items (ground arith) h.1,
)

delete_product-HasProducts :
    (p : Product) (db : Db) → HasProducts db → HasProducts (delete_product p db).1
unfolding delete_product delete
delete_product-HasProducts p db h = elim (Bool-cases (any (λ i. i.product == p.id) db.items.rows)) [
  | inl b ↦ rw (b, delete_product) h
  | inr b ↦ rw (b, delete_product) (kept_products p.id db.products.rows db.items.rows b h)
]

module _ ⦃st : Storage⦄ where
  removed-HasProducts :
      (r : Result (Unit {0})) (db : Db) → HasProducts db → HasProducts (removed (r, db)).1
  removed-HasProducts (ok x) db h = h
  removed-HasProducts (err e) db h = h

  -- The deletion of a product keeps a stored product behind every item of an order.
  pub destroy-HasProducts :
      (caller : User) (pk : ℕ) (db : Db) → HasProducts db → HasProducts (destroy caller pk db).1
  unfolding destroy
  destroy-HasProducts caller pk db h = elim (Result-cases (get_product caller pk db)) [
    | inr (e, l) ↦ rw (l, destroy) h
    | inl (p, l) ↦
        rw (l, destroy)
          (removed-HasProducts (delete_product p db).0 (delete_product p db).1
            (delete_product-HasProducts p db h))
  ]

supplier-not_client : (t : UserType) → is_supplier t ≡ true → is_client t ≡ false
supplier-not_client client h = sym h
supplier-not_client supplier h = refl
supplier-not_client admin h = refl
supplier-not_client unset h = refl

passes :
    (caller : User) (s : Supplier) (db : Db) (p : Product)
    → get p.supplier db.suppliers ≡ some s
    → (s.user == caller.id) ≡ true
    → is_users caller db p ≡ true
passes caller s db p h own = rw (h, is_users) own

-- The filter of `my_products` passes all that `get_queryset` leaves.
keep-own :
    (caller : User) (s : Supplier) (db : Db) (products : List Product)
    → get s.id db.suppliers ≡ some s
    → (s.user == caller.id) ≡ true
    → keep (is_users caller db) (keep (λ p. p.supplier == s.id) products)
      ≡ keep (λ p. p.supplier == s.id) products
keep-own caller s db [] stored own = refl
keep-own caller s db (p ∷ products) stored own = elim (Bool-cases (p.supplier == s.id)) [
  | inr b ↦ rw b (keep-own caller s db products stored own)
  | inl b ↦
      let e : p.supplier ≡ s.id = ground (arith, b) in
      rw (b, passes caller s db p (subst (λ k. get k db.suppliers ≡ some s) (sym e) stored) own)
        (ap (λ ps. p ∷ ps) (keep-own caller s db products stored own))
]

find-passes :
    {A : Type 0} (test : A → Bool) (xs : List A) (a : A) → find test xs ≡ some a → test a ≡ true
find-passes test [] a h = absurd (ground arith)
find-passes test (x ∷ xs) a h = elim (Bool-cases (test x)) [
  | inl b ↦ ground (arith, b, h)
  | inr b ↦ find-passes test xs a (rw b at h)
]

-- With well-keyed suppliers, `my_products` answers a supplier who has a profile with exactly the
-- products of this profile, and changes nothing.
pub my_products-own :
    ⦃st : Storage⦄
    → (caller : User) (s : Supplier) (db : Db) → is_supplier caller.user_type ≡ true
    → supplier_profile caller.id db ≡ some s
    → IsWellKeyed db.suppliers
    → my_products caller db ≡ (
      reply 200 (many (map (product_view db) (keep (λ p. p.supplier == s.id) db.products.rows))),
      db,
    )
unfolding my_products product_queryset
my_products-own caller s db b h w =
    rw
      (
        b,
        my_products,
        product_queryset,
        supplier-not_client caller.user_type b,
        h,
        keep-own caller s db db.products.rows
            (find_own_pk (λ x. x.user == caller.id) db.suppliers.rows s h w.distinct)
            (find-passes (λ x. x.user == caller.id) db.suppliers.rows s h),
      )
      refl
