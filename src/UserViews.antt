-- ===== src/UserViews.antt =====
-- The generic views of `UserViewSet` in orders/backend/views.py with `UserSerializer` of
-- serializers.py: retrieve, creation, edit and deletion. They ask for `IsAuthenticated` alone and find every
-- user. The check of a name that is in use is that of `User.save`.
pub mod Rights
use python_diplom.Base.{
  ℕ, String, Bool, false, not, ◌&&◌, ◌||◌, Option, none, some, any, str_eq, ◌==◌, or_default,
  is_some, find, true, if◌then◌else◌,
}
use python_diplom.Exn.{Result, ok, err, protected_error}
use python_diplom.Table.{delete, filter}
use python_diplom.Models.{
  Db, User, Product, FileField, client, supplier_profile, user_model, supplier_model, product_model,
  image_model, value_model, order_model, item_model, log_model,
}
use python_diplom.Action.{Action, Response}
use python_diplom.Accounts.{Django, Body, profile, field_error, save_user, insert_user, user_data}
use python_diplom.Uploads.{found_in}

-- `validated_data`, with `none` for a field that is not in it: all fields of `UserSerializer` but `id`
-- and the read-only ones. For a form, the framework puts False for a Boolean that was not sent, unless
-- the request is a PATCH.
pub record UserPatch : Type 0 where
  pub username : Option String
  pub email : Option String
  pub first_name : Option String
  pub last_name : Option String
  pub phone : Option String
  pub company_name : Option String
  pub address : Option String
  pub accepts_orders : Option Bool
  pub is_active : Option Bool
  pub avatar : Option FileField

abbrev pub patched : UserPatch → User → User
patched d u = record u {
  username = or_default u.username d.username;
  email = or_default u.email d.email;
  first_name = or_default u.first_name d.first_name;
  last_name = or_default u.last_name d.last_name;
  phone = or_default u.phone d.phone;
  company_name = or_default u.company_name d.company_name;
  address = or_default u.address d.address;
  accepts_orders = or_default u.accepts_orders d.accepts_orders;
  is_active = or_default u.is_active d.is_active;
  avatar = or_default u.avatar d.avatar;
}

-- `User.objects.create(**validated_data)`, with the name and the other fields; `user_type` is read-only,
-- and no password is set.
abbrev pub created : String → UserPatch → ℕ → User
created username d id = record {
  id = id;
  username = username;
  email = or_default "" d.email;
  first_name = or_default "" d.first_name;
  last_name = or_default "" d.last_name;
  user_type = client;
  phone = or_default "" d.phone;
  company_name = or_default "" d.company_name;
  address = or_default "" d.address;
  is_active = or_default true d.is_active;
  is_staff = false;
  supplier_code = none;
  accepts_orders = or_default true d.accepts_orders;
  avatar = or_default none d.avatar;
  avatar_small = none;
  avatar_medium = none;
  avatar_large = none;
}

-- `validate_email`: whether the address is refused. The row that is edited is not left out.
unfoldable pub email_taken : Option String → Db → Bool
email_taken none db = false
email_taken (some email) db = any (λ u. str_eq u.email email) db.users.rows

-- What the deletion of a user takes with it: the profile, its products with their pictures and
-- values and its log, and the orders with their items. An item of an order protects its supplier
-- and its product.
abbrev pub in_profile : User → Db → ℕ → Bool
in_profile u db supplier = elim (supplier_profile u.id db) [
  | none ↦ false
  | some s ↦ s.id == supplier
]

abbrev pub in_stock_of : User → Db → ℕ → Bool
in_stock_of u db product =
    any (λ p. (p.id == product) && in_profile u db p.supplier) db.products.rows

unfoldable pub delete_user : User → Db → Result (Unit {0}) × Db
delete_user u db =
    if any (λ i. in_profile u db i.supplier || in_stock_of u db i.product) db.items.rows
    then (err protected_error, db)
    else (
      ok tt,
      record db {
        users = delete (λ v. v.id == u.id) db.users;
        suppliers = delete (λ s. in_profile u db s.id) db.suppliers;
        products = delete (λ p. in_profile u db p.supplier) db.products;
        images = delete (λ i. in_stock_of u db i.product) db.images;
        product_attributes = delete (λ v. in_stock_of u db v.product) db.product_attributes;
        logs = delete (λ l. in_profile u db l.supplier) db.logs;
        orders = delete (λ o. o.client == u.id) db.orders;
        items =
            delete (λ i. any (λ o. (o.id == i.order) && (o.client == u.id)) db.orders.rows)
              db.items;
      },
    )

pub data Reply : Type 0 where
  body : Body → Reply
  no_content : Reply

abbrev pub reply : ℕ → Reply → Result (Response Reply)
reply status content = ok (record { status = status; body = content })

module _ ⦃d : Django⦄ where
  abbrev pub shown_with : ℕ → (String → String) → Result User × Db → Result (Response Reply) × Db
  shown_with status build (err e, db) = (err e, db)
  shown_with status build (ok user, db) = elim (user_data (some build) user) [
    | err e ↦ (err e, db)
    | ok v ↦ (reply status (body (profile v)), db)
  ]

  abbrev pub shown : (String → String) → Result User × Db → Result (Response Reply) × Db
  shown build = shown_with 200 build

  abbrev pub email_refused : Result (Response Reply)
  email_refused =
      reply 400 (body (field_error "email" "Пользователь с таким email уже существует."))

  -- `GET` of a user
  unfoldable pub retrieve : (String → String) → User → ℕ → Action (Response Reply)
  retrieve build caller pk db = shown build (found_in (λ u. u.id) pk db.users.rows, db)

  -- `PUT` and `PATCH` of a user; `code` is for `User.save`
  unfoldable pub patch_user :
      (String → String) → String → User → ℕ → UserPatch → Action (Response Reply)
  patch_user build code caller pk patch db = elim (found_in (λ u. u.id) pk db.users.rows) [
    | err e ↦ (err e, db)
    | ok user ↦
        if email_taken patch.email db
        then (email_refused, db)
        else shown build (save_user code (patched patch user) db)
  ]

  -- `POST` on the list of users; `code` is for `User.save`
  unfoldable pub post_user :
      (String → String) → String → User → String → UserPatch → Action (Response Reply)
  post_user build code caller username d db =
      if email_taken d.email db
      then (email_refused, db)
      else shown_with 201 build (insert_user code (created username d) db)

abbrev pub removed : Result (Unit {0}) × Db → Result (Response Reply) × Db
removed (ok x, db) = (reply 204 no_content, db)
removed (err e, db) = (err e, db)

-- `DELETE` of a user
unfoldable pub destroy : User → ℕ → Action (Response Reply)
destroy caller pk db = elim (found_in (λ u. u.id) pk db.users.rows) [
  | err e ↦ (err e, db)
  | ok user ↦ removed (delete_user user db)
]
