-- ===== src/Social.antt =====
-- Login through a social network: the steps of orders/backend/ipeline.py and the callback of
-- orders/backend/social_views.py.
pub mod Profiles
pub mod Pages
use Prim.Native.String
use python_diplom.Base.{
  ℕ, String, Bool, true, false, not, ◌&&◌, ◌||◌, Option, none, some, List, any, find, str_eq, code,
  Char, ◌==◌, is_nil, if◌then◌else◌,
}
use python_diplom.Exn.{Exn, Result, ok, err, value_error, auth_exception}
use python_diplom.Text.{is_empty, any_char}
use python_diplom.Models.{
  Db, User, UserType, Supplier, is_supplier, supplier_profile, supplier_model,
}
use python_diplom.Table.{insert}
use python_diplom.Action.{Action, Response, pure, ◌>>=◌}
use python_diplom.Accounts.{Django, missing, save_user, UserView, user_data}

-- The entries of `details` that the steps read; `none` is a missing key.
pub record Details : Type 0 where
  pub email : Option String
  pub first_name : Option String
  pub last_name : Option String
  pub phone : Option String
  pub company_name : Option String
  pub address : Option String
  pub tax_number : Option String

-- `details.get(key, default)`
abbrev pub get_or : Option String → String → String
get_or none default = default
get_or (some s) default = s

-- `a or b` on texts
abbrev pub text_or : String → String → String
text_or a b = if is_empty a then b else a

-- `not user.user_type`
abbrev pub is_unset : UserType → Bool
is_unset UserType.unset = true
is_unset _ = false

-- The profile's row; `strip` is `str.strip`.
abbrev pub social_profile : (String → String) → Details → User → String → ℕ → Supplier
social_profile strip details user tax_number id = record {
  id = id;
  user = user.id;
  company_name = get_or details.company_name user.username;
  contact_person =
      text_or (strip (String.◌++◌ user.first_name (String.◌++◌ " " user.last_name))) user.username;
  phone = get_or details.phone "";
  email = text_or user.email (get_or details.email "");
  address = get_or details.address "";
  tax_number = tax_number;
  is_active = true;
}

-- `try: Supplier.objects.create(…)` and `except Exception`: a row that the database refuses, as
-- each without a tax number, is left out
unfoldable pub try_profile : (String → String) → Details → User → Db → Db
try_profile strip details user db = elim details.tax_number [
  | none ↦ db
  | some tax_number ↦
      if any (λ s. (s.user == user.id) || str_eq s.tax_number tax_number) db.suppliers.rows
      then db
      else record db {
        suppliers = (insert (social_profile strip details user tax_number) db.suppliers).1;
      }
]

-- the first step of `create_user_profile`: a user without a type becomes a client
unfoldable pub ensure_type : String → User → Action User
ensure_type code user db =
    if is_unset user.user_type
    then save_user code (record user { user_type = UserType.client; is_active = true }) db
    else (ok user, db)

-- the second step: a supplier without a code gets one
unfoldable pub ensure_code : String → User → Action User
ensure_code code user db =
    if is_supplier user.user_type && missing user.supplier_code
    then save_user code (record user { supplier_code = some (String.◌++◌ "SUP" code) }) db
    else (ok user, db)

-- the last step: a supplier without a profile gets one, if that can be stored
unfoldable pub ensure_profile : (String → String) → Details → User → Action User
unfolding try_profile
ensure_profile strip details user db = elim (supplier_profile user.id db) [
  | some s ↦ (ok user, db)
  | none ↦ (ok user, if is_supplier user.user_type then try_profile strip details user db else db)
]

-- `create_user_profile` for a user
unfoldable pub create_user_profile : (String → String) → String → Details → User → Action User
create_user_profile strip code details user = do
  typed ← ensure_type code user
  coded ← ensure_code code typed
  ensure_profile strip details coded

-- `validate_email`: `domain` is `email.split('@')[-1]` and `allowed` the setting
unfoldable pub validate_email : (String → String) → List String → Details → Result Details
validate_email domain allowed details = elim details.email [
  | none ↦ err value_error
  | some email ↦
      if is_empty email
      then err value_error
      else if not (is_nil allowed) && not (any (str_eq (domain email)) allowed)
      then err value_error
      else ok details
]

-- `check_user_active`; there may be no user
unfoldable pub check_user_active : Option User → Result (Option User)
check_user_active none = ok none
check_user_active (some user) = if user.is_active then ok (some user) else err value_error

-- the new value of a field: that of `details` if it is there and not empty
abbrev pub changed : Option String → String → String
changed none old = old
changed (some s) old = if is_empty s then old else s

-- `update_user_details` for a user
unfoldable pub update_user_details : String → Details → User → Action User
update_user_details code details user = save_user code (record user {
  first_name = changed details.first_name user.first_name;
  last_name = changed details.last_name user.last_name;
  phone = changed details.phone user.phone;
})

-- The answer of the callback.
pub data Reply : Type 0 where
  signed_in : UserView → String → Reply
  error : String → Reply

abbrev pub answer : ℕ → Reply → Response Reply
answer status body = record { status = status; body = body }

abbrev pub is_auth : Exn → Option String
is_auth (auth_exception text) = some text
is_auth _ = none

-- `except AuthException` and `except Exception`
abbrev pub failed : Exn → Response Reply
failed e = elim (is_auth e) [
  | some text ↦ answer 400 (error text)
  | none ↦ answer 500 (error "Authentication error")
]

module _ ⦃d : Django⦄ where
  -- the body of `SocialAuthCallbackView.post`; `complete` is what the provider's backend returns
  unfoldable pub callback : (String → String) → String → Result (Option User) → Response Reply
  unfolding user_data
  callback build frontend_redirect complete = elim complete [
    | err e ↦ failed e
    | ok none ↦ answer 401 (error "Authentication failed")
    | ok (some user) ↦ elim (user_data (some build) user) [
      | err e ↦ failed e
      | ok view ↦ answer 200 (signed_in view frontend_redirect)
    ]
  ]
