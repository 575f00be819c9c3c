-- ===== src/Registration.antt =====
-- `UserRegistrationSerializer.create` of orders/backend/serializers.py, and `register`, `login`,
-- `password_reset` and `me` of `UserViewSet` in orders/backend/views.py.
pub mod Suppliers
pub mod Leftovers
pub mod Clients
pub mod Login
use Prim.Native.String
use python_diplom.Base.{
  ℕ, String, Bool, true, false, not, ◌||◌, Option, none, some, List, [], ◌∷◌, keep, find, str_eq,
  ◌≡◌, if◌then◌else◌,
}
use python_diplom.Exn.{Exn, Result, ok, err, validation_error, other_error}
use python_diplom.Text.{Unicode}
use python_diplom.Models.{Db, User, is_supplier}
use python_diplom.Action.{Action, Response, pure, lift, then_run, ◌>>=◌, ◌>>◌}
use python_diplom.Accounts.{
  Django, Registration, Body, tokens, profile, field_error, error, message, asks_supplier, missing,
  validate, insert_user, new_user, save_user, create_profile, user_data, token_response,
}

-- `UserRegistrationSerializer.create` for a supplier, once the user is stored: a new code, and the
-- profile. `code` is what the second `get_random_string(8).upper()` returns.
pub finish_supplier : User → Option String → String → Action User
finish_supplier user tax_number code = do
  saved ← save_user code (record user { supplier_code = some (String.◌++◌ "SUP" code) })
  create_profile saved tax_number
  pure saved

pub finish : Bool → User → Option String → String → Action User
finish true user tax_number code = finish_supplier user tax_number code
finish false user tax_number code = pure user

-- The profile that `register` creates itself: a user has no attribute `tax_number`.
pub second_profile : Bool → User → Action (Unit {0})
second_profile true user = do create_profile user none; pure tt
second_profile false user = pure tt

-- Django's `authenticate` with the backends of orders/orders/settings.py. `ModelBackend` finds the
-- user by the name and refuses one that is not active; the social backends take no password.
pub record Authentication : Type 0 where
  pub authenticate : String → String → Db → Option User
  pub authenticate-named :
      (name word : String) (db : Db) (user : User)
      → authenticate name word db ≡ some user
      → find (λ u. str_eq u.username name) db.users.rows ≡ some user
  pub authenticate-active :
      (name word : String) (db : Db) (user : User)
      → authenticate name word db ≡ some user
      → user.is_active ≡ true

-- `authenticate(username=username, password=password)`
abbrev pub credentials : Authentication → Option String → Option String → Db → Option User
credentials a (some name) (some word) db = a.authenticate name word db
credentials a _ _ db = none

module _ ⦃d : Django⦄ where
  -- `UserRegistrationSerializer.create`
  pub create : Registration → String → String → Action User
  create r code_1 code_2 = do
    user ← insert_user code_1 (new_user r)
    finish (asks_supplier r.user_type) user r.tax_number code_2

  -- `register`, once `is_valid` has returned true
  pub register_valid : Registration → String → String → Action (Response Body)
  register_valid r code_1 code_2 = do
    user ← create r code_1 code_2
    second_profile (is_supplier user.user_type) user
    lift (token_response 201 user)

  unfoldable pub register : ⦃u : Unicode⦄ → Registration → String → String → Action (Response Body)
  register r code_1 code_2 db = elim (validate r db) [
    | err (validation_error f m) ↦ (ok (record { status = 400; body = field_error f m }), db)
    | err e ↦ (err e, db)
    | ok valid ↦ register_valid valid code_1 code_2 db
  ]

  -- `login`
  unfoldable pub login : Authentication → Option String → Option String → Action (Response Body)
  login a username password db =
      if missing username || missing password
      then (ok (record { status = 400; body = error "Username and password are required" }), db)
      else elim (credentials a username password db) [
        | none ↦ (ok (record { status = 401; body = error "Invalid credentials" }), db)
        | some user ↦
            if not user.is_active
            then (ok (record { status = 403; body = error "User account is disabled" }), db)
            else (token_response 200 user, db)
      ]

  -- what `User.objects.get(email=email)` finds, and the answer: it does not tell whether the
  -- address is known, and two users with one address raise `MultipleObjectsReturned`
  unfoldable pub reset_answer : List User → Result (Response Body)
  reset_answer (a ∷ (b ∷ rest)) = err (other_error "MultipleObjectsReturned")
  reset_answer _ = ok (record {
    status = 200;
    body = message "Инструкции по восстановлению пароля отправлены на ваш email";
  })

  -- `password_reset`, once `is_valid` has returned true
  unfoldable pub password_reset : String → Action (Response Body)
  password_reset email db = (reset_answer (keep (λ u. str_eq u.email email) db.users.rows), db)

  -- `me`: here the serializer has the request in its context
  pub me : (String → String) → User → Action (Response Body)
  me build user db = elim (user_data (some build) user) [
    | err e ↦ (err e, db)
    | ok v ↦ (ok (record { status = 200; body = profile v }), db)
  ]
