-- ===== src/UserViews/Rights.antt =====
-- What any caller who is logged in can do to the account of another user.
use python_diplom.Base.{
  some-injective, Option-cases, ℕ, String, Bool, true, false, Bool-cases, inl, inr, none, some,
  List, [], ◌∷◌, any, find, keep, str_eq, eq_refl, ◌==◌, ◌&&◌, ◌||◌, not, ◌≡◌, ◌≢◌, refl, sym, ap,
  ◌∙◌, arith,
}
use mathlib.Core.Path.{subst}
use python_diplom.Table.{replace, get, update, delete, has_pk}
use python_diplom.Exn.{Result, Result-cases, ok, err}
use python_diplom.Text.{is_empty}
use python_diplom.Models.{Db, User, OrderItem, Order, supplier_profile, user_model}
use python_diplom.Accounts.{Django, error, field_error, save_user, with_code, clashes, user_data}
use python_diplom.Registration.{Authentication, login}
use python_diplom.UserViews.{
  UserPatch, email_taken, patch_user, shown, shown_with, reply, body, destroy, delete_user,
  in_profile, in_stock_of, no_content,
}

-- the body `is_active=false`
abbrev pub deactivate : UserPatch
deactivate = record {
  username = none;
  email = none;
  first_name = none;
  last_name = none;
  phone = none;
  company_name = none;
  address = none;
  accepts_orders = none;
  is_active = some false;
  avatar = none;
}

id-with_code : (code : String) (u : User) → (with_code code u).id ≡ u.id
id-with_code code u = ground arith

is_active-with_code : (code : String) (u : User) → (with_code code u).is_active ≡ u.is_active
is_active-with_code code u = ground arith

email_found :
    (u : User) (k : ℕ) (users : List User)
    → find (has_pk k) users ≡ some u
    → any (λ v. str_eq v.email u.email) users ≡ true
email_found u k [] h = absurd (ground arith)
email_found u k (v ∷ users) h = elim (Bool-cases (v.id == k)) [
  | inl b ↦
      let e : v.email ≡ u.email = ap (λ x. x.email) (some-injective (rw b at h)) in
      rw (e, eq_refl u.email) refl
  | inr b ↦ (let rest = email_found u k users (rw b at h) in ground (arith, rest))
]

-- The only row with the name of a saved user whose row clashes with no other is the saved one.
find-replaced :
    (w v : User) (rows : List User)
    → any (clashes w) rows ≡ false
    → find (λ x. str_eq x.username w.username) (replace w rows) ≡ some v
    → v ≡ w
find-replaced w v [] free h = absurd (ground arith)
find-replaced w v (x ∷ rows) free h = elim (Bool-cases (x.id == w.id)) [
  | inl e ↦ sym (some-injective (rw (e, eq_refl w.username) at h))
  | inr e ↦
      let apart : str_eq x.username w.username ≡ false = ground (arith, free, e) in
      let rest : any (clashes w) rows ≡ false = ground (arith, free) in
      find-replaced w v rows rest (rw (e, apart) at h)
]

username-with_code : (code : String) (u : User) → (with_code code u).username ≡ u.username
username-with_code code u = ground arith

named-saved :
    (code : String) (u : User) (db : Db)
    → any (clashes (with_code code u)) db.users.rows ≡ false
    → (v : User)
    → find (λ x. str_eq x.username u.username) (save_user code u db).1.users.rows ≡ some v
    → v ≡ with_code code u
unfolding save_user update
named-saved code u db free v h =
    let w = with_code code u in
    find-replaced w v db.users.rows free (
      subst (λ n. find (λ x. str_eq x.username n) (replace w db.users.rows) ≡ some v)
        (sym (username-with_code code u)) (rw (free, save_user) at h))

module _ ⦃d : Django⦄ where
  db-shown : (build : String → String) (r : Result User) (db : Db) → (shown build (r, db)).1 ≡ db
  db-shown build (err e) db = refl
  db-shown build (ok u) db = elim (Result-cases (user_data (some build) u)) [
    | inl (v, h) ↦ rw (h, shown, shown_with) refl
    | inr (e, h) ↦ rw (h, shown, shown_with) refl
  ]

  login-refused :
      (a : Authentication) (name word : String) (db : Db)
      → is_empty name ≡ false
      → is_empty word ≡ false
      → ((v : User) → a.authenticate name word db ≢ some v)
      → login a (some name) (some word) db
        ≡ (ok (record { status = 401; body = error "Invalid credentials" }), db)
  unfolding login
  login-refused a name word db hn hw none_found =
      elim (Option-cases (a.authenticate name word db)) [
        | inl refused ↦ rw (hn, hw, refused) refl
        | inr (v, found) ↦ absurd (none_found v found)
      ]

  db-patch_user :
      (build : String → String) (code : String) (caller u : User) (db : Db)
      → get u.id db.users ≡ some u
      → (patch_user build code caller u.id deactivate db).1
        ≡ (save_user code (record u { is_active = false }) db).1
  unfolding patch_user email_taken
  db-patch_user build code caller u db stored =
      rw (stored, patch_user)
        (db-shown build (save_user code (record u { is_active = false }) db).0
          (save_user code (record u { is_active = false }) db).1)

  -- After any caller has sent `is_active=false` for the account of a stored user whose row clashes
  -- with no other, `login` answers 401 to the name of this user with any password, and not 403, if
  -- `authenticate` finds a user by the name and only an active one.
  pub deactivated_by_anyone :
      (a : Authentication) (build : String → String) (code : String) (caller u : User)
      (word : String) (db : Db)
      → get u.id db.users ≡ some u
      → any (clashes (with_code code (record u { is_active = false }))) db.users.rows ≡ false
      → is_empty u.username ≡ false
      → is_empty word ≡ false
      → let db' = (patch_user build code caller u.id deactivate db).1 in
        login a (some u.username) (some word) db'
        ≡ (ok (record { status = 401; body = error "Invalid credentials" }), db')
  deactivated_by_anyone a build code caller u word db stored free hn hw =
      let off = record u { is_active = false } in
      let db' = (patch_user build code caller u.id deactivate db).1 in
      login-refused a u.username word db' hn hw (λ v found.
        let named = a.authenticate-named u.username word db' v found in
        let same = named-saved code off db free v (
          subst (λ x. find (λ y. str_eq y.username u.username) x.users.rows ≡ some v)
            (db-patch_user build code caller u db stored) named) in
        absurd (
          cc (
            a.authenticate-active u.username word db' v found,
            ap (λ x. x.is_active) same ∙ is_active-with_code code off,
          )))

  -- An edit that sends the address that the user has is refused.
  own_email_refused :
      (build : String → String) (code : String) (caller u : User) (patch : UserPatch) (db : Db)
      → get u.id db.users ≡ some u
      → patch.email ≡ some u.email
      → patch_user build code caller u.id patch db
        ≡ (reply 400 (body (field_error "email" "Пользователь с таким email уже существует.")), db)
  unfolding patch_user email_taken
  own_email_refused build code caller u patch db stored same =
      rw (stored, patch_user, same, email_found u u.id db.users.rows stored) refl

find-deleted : {A : Type 0} (p : A → Bool) (xs : List A) → find p (keep (λ x. not (p x)) xs) ≡ none
find-deleted p [] = refl
find-deleted p (x ∷ xs) = elim (Bool-cases (p x)) [
  | inl b ↦ rw b (find-deleted p xs)
  | inr b ↦ rw (b, b) (find-deleted p xs)
]

any-false : {A : Type 0} (p : A → Bool) (xs : List A) → ((x : A) → p x ≡ false) → any p xs ≡ false
any-false p [] h = refl
any-false p (x ∷ xs) h = rw (h x) (any-false p xs h)

no_profile :
    (u : User) (db : Db) (k : ℕ) → supplier_profile u.id db ≡ none → in_profile u db k ≡ false
no_profile u db k h = rw (h, in_profile) refl

and_false : (b c : Bool) → c ≡ false → (b && c) ≡ false
and_false b c h = ground (arith, h)

no_stock :
    (u : User) (db : Db) (k : ℕ) → supplier_profile u.id db ≡ none → in_stock_of u db k ≡ false
no_stock u db k h =
    any-false (λ p. (p.id == k) && in_profile u db p.supplier) db.products.rows
      (λ p. and_false (p.id == k) (in_profile u db p.supplier) (no_profile u db p.supplier h))

-- Any caller can delete a stored user who has no profile: the answer is 204, and neither the user
-- nor an order of the user is found afterwards.
erased_by_anyone :
    (caller u : User) (db : Db)
    → get u.id db.users ≡ some u
    → supplier_profile u.id db ≡ none
    → let (answer, db') = destroy caller u.id db in
      (answer ≡ reply 204 no_content)
      × (get u.id db'.users ≡ none)
      × (find (λ o. o.client == u.id) db'.orders.rows ≡ none)
unfolding destroy delete_user delete
erased_by_anyone caller u db stored none_there =
    let free =
      any-false (λ (i : OrderItem). in_profile u db i.supplier || in_stock_of u db i.product)
        db.items.rows
        (λ i. rw (no_profile u db i.supplier none_there) (no_stock u db i.product none_there)) in
    (
      rw (stored, destroy, free, delete_user) refl,
      rw (stored, destroy, free, delete_user)
          (find-deleted (λ (v : User). v.id == u.id) db.users.rows),
      rw (stored, destroy, free, delete_user)
          (find-deleted (λ (o : Order). o.client == u.id) db.orders.rows),
    )
