-- ===== src/Examples/Accounts.antt =====
-- Examples for the theorems on registration and login.
use mathlib.Core.Path.{subst}
use python_diplom.Base.{
  Bool, true, false, some-injective, ap, find, arith, [], ◌∷◌, str_eq, if◌then◌else◌, ◌≡◌, refl,
  String, Option, none, some,
}
use python_diplom.Exn.{ok, err, integrity_error, key_error}
use python_diplom.Models.{user_model, Db, User, UserType}
use python_diplom.TaxNumber.{validate_tax_number, validate_inn_10, control_sum, strip_separators}
use python_diplom.Registration.Leftovers.{supplier_loses_name}
use python_diplom.Accounts.{field_error, Registration, tokens, validate, token_response, user_data}
use python_diplom.Registration.{Authentication, register, login}
use python_diplom.Registration.Clients.{plain_view, register_client}
use python_diplom.Registration.Login.{avatar_locks_out}
use python_diplom.Examples.{ascii, plain_django, shop, anna, boris}

abbrev pub asked : Option UserType → Registration
asked user_type = record {
  username = "vera";
  email = "vera@example.com";
  password = "secret-word";
  password_confirm = "secret-word";
  first_name = "Vera";
  last_name = "";
  user_type = user_type;
  phone = "";
  company_name = "";
  address = "";
  tax_number = some "7707083893";
}

supplier_valid :
    validate (asked (some UserType.supplier)) shop ≡ ok (asked (some UserType.supplier))
unfolding validate validate_tax_number validate_inn_10 control_sum strip_separators
supplier_valid = refl

abbrev pub vera : User
vera = record {
  id = 3;
  username = "vera";
  email = "vera@example.com";
  first_name = "Vera";
  last_name = "";
  user_type = UserType.client;
  phone = "";
  company_name = "";
  address = "";
  is_active = true;
  is_staff = false;
  supplier_code = none;
  accepts_orders = true;
  avatar = none;
  avatar_small = none;
  avatar_medium = none;
  avatar_large = none;
}

register_client_example : register (asked none) "AAAAAAAA" "BBBBBBBB" shop ≡ (
  ok (record { status = 201; body = tokens (plain_view vera) }),
  record shop { users = record { rows = anna ∷ boris ∷ vera ∷ []; next_id = 4 } },
)
register_client_example =
    register_client (asked none) "AAAAAAAA" "BBBBBBBB" shop refl (refl, (refl, tt))
      (refl, (refl, tt)) refl (refl, (refl, tt))

abbrev pub if_active : Option User → Option User
if_active none = none
if_active (some v) = if v.is_active then some v else none

-- Every active user has the same password.
abbrev pub checked_word : String → String → Db → Option User
checked_word name word db =
    if str_eq word "secret-word"
    then if_active (find (λ u. str_eq u.username name) db.users.rows)
    else none

taken : (b : Bool) (u v : User) → (if b then some u else none) ≡ some v → (u ≡ v) × (b ≡ true)
taken false u v h = absurd (ground arith)
taken true u v h = (some-injective h, refl)

pub if_active-found :
    (b : Bool) (o : Option User) (v : User)
    → (if b then if_active o else none) ≡ some v
    → (o ≡ some v) × (v.is_active ≡ true)
if_active-found false o v h = absurd (ground arith)
if_active-found true none v h = absurd (ground arith)
if_active-found true (some u) v h =
    let (same, on) = taken u.is_active u v h in
    (ap some same, subst (λ x. x.is_active ≡ true) same on)

abbrev pub one_word : Authentication
one_word = record {
  authenticate = checked_word;
  authenticate-named = λ name word db v h. (if_active-found (str_eq word "secret-word") _ v h).0;
  authenticate-active = λ name word db v h. (if_active-found (str_eq word "secret-word") _ v h).1;
}

boris_logs_in :
    (login one_word (some "boris") (some "secret-word") shop).0
    ≡ ok (record { status = 200; body = tokens (plain_view boris) })
unfolding login token_response user_data
boris_logs_in = refl

avatar_locks_out_example :
    login one_word (some "anna") (some "secret-word") shop ≡ (err (key_error "request"), shop)
avatar_locks_out_example =
    avatar_locks_out one_word "anna" "secret-word" "anna.png" shop anna refl refl refl refl refl

supplier_loses_name_example :
    let vera = asked (some UserType.supplier) in
    let (first, db') = register vera "AAAAAAAA" "BBBBBBBB" shop in
    (first ≡ err integrity_error)
    × (register vera "CCCCCCCC" "DDDDDDDD" db' ≡ (
      ok (record {
        status = 400;
        body = field_error "username" "Пользователь с таким именем уже существует.";
      }),
      db',
    ))
supplier_loses_name_example =
    supplier_loses_name (asked (some UserType.supplier)) (asked (some UserType.supplier)) "AAAAAAAA"
      "BBBBBBBB" "CCCCCCCC" "DDDDDDDD" shop refl supplier_valid refl refl
