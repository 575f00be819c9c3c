-- ===== src/Accounts.antt =====
-- Users: `User.save` of orders/backend/models.py, `UserSerializer` and
-- the checks of `UserRegistrationSerializer` of orders/backend/serializers.py.
use Prim.Native.String
use python_diplom.Base.{
  ℕ, String, Bool, true, false, not, ◌&&◌, ◌||◌, Option, none, some, any, str_eq, ◌==◌,
  if◌then◌else◌,
}
use python_diplom.Exn.{Result, ok, err, ◌>>=◌, validation_error, integrity_error, key_error}
use python_diplom.Text.{Unicode, is_empty}
use python_diplom.TaxNumber.{validate_tax_number}
use python_diplom.Table.{insert, update}
use python_diplom.Models.{
  Db, User, UserType, Supplier, is_supplier, user_model, supplier_model, FileField,
}
use python_diplom.Action.{Action, Response}

-- What Django and its REST framework do here: `normalize_username` and `normalize_email` of
-- `create_user`, the text of a `ValidationError`, and the URL of a stored file.
pub record Django : Type 0 where
  pub normalize_username : String → String
  pub normalize_email : String → String
  pub error_text : String → String
  pub file_url : String → String

-- The fields of `UserRegistrationSerializer`; an optional text that is not sent is empty.
pub record Registration : Type 0 where
  pub username : String
  pub email : String
  pub password : String
  pub password_confirm : String
  pub first_name : String
  pub last_name : String
  pub user_type : Option UserType
  pub phone : String
  pub company_name : String
  pub address : String
  pub tax_number : Option String

-- `data.get('user_type') == 'supplier'`
abbrev pub asks_supplier : Option UserType → Bool
asks_supplier none = false
asks_supplier (some t) = is_supplier t

-- `not data.get('tax_number')`
abbrev pub missing : Option String → Bool
missing none = true
missing (some s) = is_empty s

abbrev pub code_taken : Option String → Option String → Bool
code_taken (some a) (some b) = str_eq a b
code_taken _ _ = false

-- The unique columns of `users`, against the rows with another key.
abbrev pub clashes : User → User → Bool
clashes u v =
    not (v.id == u.id)
    && (str_eq v.username u.username || code_taken v.supplier_code u.supplier_code)

-- `User.save`: a supplier without a code gets one; `code` is what `get_random_string(8).upper()`
-- returns.
abbrev pub with_code : String → User → User
with_code code u =
    if is_supplier u.user_type && missing u.supplier_code
    then record u { supplier_code = some (String.◌++◌ "SUP" code) }
    else u

unfoldable pub save_user : String → User → Action User
save_user code u db =
    let saved = with_code code u in
    if any (clashes saved) db.users.rows
    then (err integrity_error, db)
    else (ok saved, record db { users = update saved db.users })

-- `objects.create_user`, which ends in `User.save`
abbrev pub new_user : ⦃d : Django⦄ → Registration → ℕ → User
new_user ⦃d⦄ r id = record {
  id = id;
  username = d.normalize_username r.username;
  email = d.normalize_email r.email;
  first_name = r.first_name;
  last_name = r.last_name;
  user_type = elim r.user_type [ none ↦ UserType.client | some t ↦ t ];
  phone = r.phone;
  company_name = r.company_name;
  address = r.address;
  is_active = true;
  is_staff = false;
  supplier_code = none;
  accepts_orders = true;
  avatar = none;
  avatar_small = none;
  avatar_medium = none;
  avatar_large = none;
}

unfoldable pub insert_user : String → (ℕ → User) → Action User
insert_user code mk db =
    let (saved, users) = insert (λ id. with_code code (mk id)) db.users in
    if any (clashes saved) db.users.rows
    then (err integrity_error, db)
    else (ok saved, record db { users = users })

-- `Supplier.objects.create(user=user, …, tax_number=tax_number)`: one profile for each user, one
-- for each tax number, and no profile without one.
abbrev pub profile_row : User → String → ℕ → Supplier
profile_row u tax_number id = record {
  id = id;
  user = u.id;
  company_name = u.company_name;
  contact_person = String.◌++◌ u.first_name (String.◌++◌ " " u.last_name);
  phone = u.phone;
  email = u.email;
  address = u.address;
  tax_number = tax_number;
  is_active = true;
}

unfoldable pub create_profile : User → Option String → Action Supplier
create_profile u none db = (err integrity_error, db)
create_profile u (some tax_number) db =
    let (profile, suppliers) = insert (profile_row u tax_number) db.suppliers in
    if any (λ s. (s.user == u.id) || str_eq s.tax_number tax_number) db.suppliers.rows
    then (err integrity_error, db)
    else (ok profile, record db { suppliers = suppliers })

module _ ⦃u : Unicode⦄ ⦃d : Django⦄ where
  -- `try: validate_tax_number(…)`, whose `ValidationError` is raised again for the field
  abbrev pub checked_tax_number : String → Result String
  checked_tax_number s = elim (validate_tax_number s) [
    | ok t ↦ ok t
    | err (validation_error f m) ↦ err (validation_error "tax_number" (d.error_text m))
    | err e ↦ err e
  ]

  -- the last part of `UserRegistrationSerializer.validate`, for a supplier
  pub validate_supplier : Registration → Result Registration
  validate_supplier r = elim r.tax_number [
    | none ↦ err (validation_error "tax_number" "ИНН обязателен для поставщиков.")
    | some s ↦
        if is_empty s
        then err (validation_error "tax_number" "ИНН обязателен для поставщиков.")
        else elim (checked_tax_number s) [
          | ok t ↦ ok (record r { tax_number = some t })
          | err e ↦ err e
        ]
  ]

  -- `UserRegistrationSerializer.validate`
  unfoldable pub validate : Registration → Db → Result Registration
  unfolding validate_supplier
  validate r db =
      if not (str_eq r.password r.password_confirm)
      then err (validation_error "password_confirm" "Пароли не совпадают.")
      else if any (λ v. str_eq v.username r.username) db.users.rows
      then err (validation_error "username" "Пользователь с таким именем уже существует.")
      else if any (λ v. str_eq v.email r.email) db.users.rows
      then err (validation_error "email" "Пользователь с таким email уже существует.")
      else if asks_supplier r.user_type
      then validate_supplier r
      else ok r

-- A response to `register`, `login` and `me`: the serialised user, and tokens or an error.
pub record UserView : Type 0 where
  pub user : User
  pub avatar_url : Option String
  pub avatar_small_url : Option String
  pub avatar_medium_url : Option String
  pub avatar_large_url : Option String

pub data Body : Type 0 where
  tokens : UserView → Body
  profile : UserView → Body
  field_error : String → String → Body
  error message : String → Body

module _ ⦃d : Django⦄ where
  -- `get_avatar_url` and its siblings. The context of the serializer may lack the request, whose
  -- `build_absolute_uri` is `build`.
  abbrev pub avatar_url : Option (String → String) → FileField → Result (Option String)
  avatar_url build none = ok none
  avatar_url none (some name) = err (key_error "request")
  avatar_url (some build) (some name) = ok (some (build (d.file_url name)))

  -- the thumbnail's URL, or that of the original
  abbrev pub thumbnail_url :
      Option (String → String) → FileField → FileField → Result (Option String)
  thumbnail_url build original none = avatar_url build original
  thumbnail_url build original (some name) = avatar_url build (some name)

  -- `UserSerializer(user, context=…).data`
  unfoldable pub user_data : Option (String → String) → User → Result UserView
  user_data build u = do
    url ← avatar_url build u.avatar
    small ← thumbnail_url build u.avatar u.avatar_small
    medium ← thumbnail_url build u.avatar u.avatar_medium
    large ← thumbnail_url build u.avatar u.avatar_large
    ok (record {
      user = u;
      avatar_url = url;
      avatar_small_url = small;
      avatar_medium_url = medium;
      avatar_large_url = large;
    })

  -- `Response({'user': UserSerializer(user).data, …}, status=status)`, with fresh tokens
  unfoldable pub token_response : ℕ → User → Result (Response Body)
  unfolding user_data
  token_response status user = elim (user_data none user) [
    | err e ↦ err e
    | ok v ↦ ok (record { status = status; body = tokens v })
  ]
