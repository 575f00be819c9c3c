-- ===== src/OrderViews/Visibility.antt =====
-- Which orders a user can reach.
use python_diplom.Base.{
  ℕ, ◌≡◌, ◌≢◌, refl, sym, ap, ◌∙◌, ◌↔◌, inl, inr, Bool, true, false, none, some, List, [], ◌∷◌,
  find, keep, All, Option-cases, Bool-cases, arith, ◌==◌, if◌then◌else◌,
}
use python_diplom.Exn.{ok, >>=-eq-ok, ok-injective, err-ne-ok}
use python_diplom.Table.{get, Distinct, IsWellKeyed}
use python_diplom.Models.{order_model, Db, User, Order, is_client, is_supplier, supplier_profile}
use python_diplom.OrderViews.{has_item_of, get_queryset, get_object}

-- The orders that a user may see, by the type of the user.
abbrev pub sees : User → Order → Db → Bool
sees user o db =
    if is_client user.user_type
    then o.client == user.id
    else if is_supplier user.user_type
    then elim (supplier_profile user.id db) [ none ↦ false | some s ↦ has_item_of s.id o.id db ]
    else true

abbrev seen_in : User → Db → List Order
seen_in user db = keep (λ o. sees user o db) db.orders.rows

keep-true : (xs : List Order) → keep (λ o. true) xs ≡ xs
keep-true [] = refl
keep-true (x ∷ xs) = rw (keep-true xs) refl

-- The queryset holds exactly the orders that the user may see.
get_queryset-sees :
    (user : User) (db : Db) (xs : List Order) → get_queryset user db ≡ ok xs → xs ≡ seen_in user db
unfolding get_queryset
get_queryset-sees user db xs h = elim (Bool-cases (is_client user.user_type)) [
  | inl e ↦ rw e (sym (ok-injective (rw (e, get_queryset) at h)))
  | inr e ↦ elim (Bool-cases (is_supplier user.user_type)) [
    | inl s ↦ elim (Option-cases (supplier_profile user.id db)) [
      | inl n ↦ absurd (err-ne-ok (rw (e, s, n, get_queryset) at h))
      | inr (p, n) ↦ rw (e, s, n) (sym (ok-injective (rw (e, s, n, get_queryset) at h)))
    ]
    | inr s ↦
        rw (e, s)
          (sym (ok-injective (rw (e, s, get_queryset) at h)) ∙ sym (keep-true db.orders.rows))
  ]
]

get_queryset_total :
    (user : User) (db : Db) (o : Order)
    → sees user o db ≡ true
    → get_queryset user db ≡ ok (seen_in user db)
unfolding get_queryset
get_queryset_total user db o h = elim (Bool-cases (is_client user.user_type)) [
  | inl e ↦ rw e refl
  | inr e ↦ elim (Bool-cases (is_supplier user.user_type)) [
    | inl s ↦ elim (Option-cases (supplier_profile user.id db)) [
      | inl n ↦ absurd (ground arith)
      | inr (p, n) ↦ rw (e, s, n) refl
    ]
    | inr s ↦ rw (e, s) (ap ok (sym (keep-true db.orders.rows)))
  ]
]

absent :
    (pk : ℕ) (q : Order → Bool) (xs : List Order)
    → All (λ o. pk ≢ o.id) xs
    → find (λ o. o.id == pk) (keep q xs) ≡ none
absent pk q [] h = refl
absent pk q (x ∷ xs) h = ground (arith, absent pk q xs h.1)

find-keep :
    (pk : ℕ) (q : Order → Bool) (xs : List Order) (o : Order)
    → Distinct xs
    → find (λ o. o.id == pk) (keep q xs) ≡ some o
    → (find (λ o. o.id == pk) xs ≡ some o) × (q o ≡ true)
find-keep pk q [] o d h = ground arith
find-keep pk q (x ∷ xs) o d h = ground (arith, find-keep pk q xs o d.1, absent x.id q xs d.0)

find-kept :
    (pk : ℕ) (q : Order → Bool) (xs : List Order) (o : Order)
    → find (λ o. o.id == pk) xs ≡ some o
    → q o ≡ true
    → find (λ o. o.id == pk) (keep q xs) ≡ some o
find-kept pk q [] o h k = ground arith
find-kept pk q (x ∷ xs) o h k = ground (arith, find-kept pk q xs o)

get_object_sound :
    (user : User) (pk : ℕ) (db : Db) (o : Order)
    → IsWellKeyed db.orders
    → get_object user pk db ≡ ok o
    → (get pk db.orders ≡ some o) × (sees user o db ≡ true)
unfolding get_object
get_object_sound user pk db o w h =
    let (xs, e, found) = >>=-eq-ok (get_queryset user db) _ h in
    find-keep pk (λ (o : Order). sees user o db) db.orders.rows o w.distinct
      (rw (← get_queryset-sees user db xs e) (ground arith))

get_object_complete :
    (user : User) (pk : ℕ) (db : Db) (o : Order)
    → get pk db.orders ≡ some o
    → sees user o db ≡ true
    → get_object user pk db ≡ ok o
unfolding get_object
get_object_complete user pk db o h k = rw (
  get_queryset_total user db o k,
  find-kept pk (λ (o : Order). sees user o db) db.orders.rows o h k,
)

-- In a well-keyed table, an action on one order finds exactly the order stored under its key, and
-- only if its caller may see it: a client the client's own, a supplier those with an item of the
-- supplier's, an administrator every order.
pub get_object_iff :
    (user : User) (pk : ℕ) (db : Db) (o : Order)
    → IsWellKeyed db.orders
    → ((get_object user pk db ≡ ok o) ↔ ((get pk db.orders ≡ some o) × (sees user o db ≡ true)))
get_object_iff user pk db o w =
    (get_object_sound user pk db o w, λ h. get_object_complete user pk db o h.0 h.1)
