-- ===== src/Uploads.antt =====
-- The handlers of orders/backend/views.py that take or remove files, and the switch of a supplier:
-- `upload_avatar` and `delete_avatar` of `UserViewSet`, `toggle_accept_orders` of
-- `SupplierViewSet`, and `get_queryset`, `upload_image`, `add_additional_image` and
-- `remove_additional_image` of `ProductViewSet`. They stand behind `IsAuthenticated`, and the
-- request carries no filter parameters.
pub mod Rights
use python_diplom.Base.{
  ℕ, String, Bool, true, not, ◌&&◌, Option, none, some, List, [], ◌∷◌, ◌++◌, keep, find, ◌==◌, ltb,
  if◌then◌else◌,
}
use python_diplom.Exn.{Result, ok, err, http404, or_raise}
use python_diplom.Table.{get, insert, update, delete}
use python_diplom.Models.{
  Db, User, Product, ProductImage, FileField, Task, is_supplier, is_client, supplier_profile,
  user_model, supplier_model, product_model, image_model,
}
use python_diplom.Action.{Action, Response, ◌>>=◌}
use python_diplom.Accounts.{save_user}
use python_diplom.Media.{Upload}

-- The media storage: the name that a new file gets below a folder, and the absolute URL of a file.
pub record Storage : Type 0 where
  pub store : String → Upload → String
  pub url : String → String

pub data Reply : Type 0 where
  message error : String → Reply
  uploaded : String → Option String → Reply
  image_data : ProductImage → Reply
  accepts : String → Bool → Reply

abbrev pub reply : ℕ → Reply → Result (Response Reply)
reply status body = ok (record { status = status; body = body })

-- `self.get_object()` of a viewset whose queryset is `rows`
abbrev pub found_in {ℓ} : {A : Type ℓ} → (A → ℕ) → ℕ → List A → Result A
found_in id pk rows = or_raise (find (λ a. id a == pk) rows) http404

-- `ProductViewSet.get_queryset`, for an action other than `list`
unfoldable pub product_queryset : User → Db → List Product
product_queryset user db =
    let shown = keep (λ p. p.is_active && ltb 0 p.stock_quantity) db.products.rows in
    if is_client user.user_type
    then shown
    else if is_supplier user.user_type
    then elim (supplier_profile user.id db) [
      | none ↦ []
      | some s ↦ keep (λ p. p.supplier == s.id) db.products.rows
    ]
    else db.products.rows

unfoldable pub get_product : User → ℕ → Db → Result Product
unfolding product_queryset
get_product user pk db = found_in (λ p. p.id) pk (product_queryset user db)

-- `product.supplier.user != request.user and not request.user.is_staff`, negated; a foreign key
-- always finds its row, so the first case does not arise
unfoldable pub may_edit : User → Product → Db → Bool
may_edit user product db = elim (get product.supplier db.suppliers) [
  | none ↦ user.is_staff
  | some s ↦ if s.user == user.id then true else user.is_staff
]

abbrev pub may_edit_user : User → User → Bool
may_edit_user caller user = if user.id == caller.id then true else caller.is_staff

-- `field.delete()`: nothing on an empty field, otherwise the instance is saved without the file
pub drop_file : String → FileField → User → User → Action User
drop_file code none user cleared db = (ok user, db)
drop_file code (some file) user cleared db = save_user code cleared db

-- `delete_avatar`, once the rights and the avatar have been checked; `code` is for `User.save`
pub drop_avatars : String → User → Action User
unfolding drop_file
drop_avatars code user = do
  u₁ ← save_user code (record user { avatar = none })
  u₂ ← drop_file code u₁.avatar_small u₁ (record u₁ { avatar_small = none })
  u₃ ← drop_file code u₂.avatar_medium u₂ (record u₂ { avatar_medium = none })
  u₄ ← drop_file code u₃.avatar_large u₃ (record u₃ { avatar_large = none })
  save_user code u₄

abbrev pub send_task : Task → Db → Db
send_task t db = record db { queue = db.queue ++ t ∷ [] }

module _ ⦃st : Storage⦄ where
  -- the end of `upload_avatar`, after `user.save()`
  abbrev pub avatar_saved : Result User × Db → Result (Response Reply) × Db
  avatar_saved (err e, db) = (err e, db)
  avatar_saved (ok user, db) = (
    reply 200 (
        uploaded "Аватар загружен. Идёт обработка миниатюр..."
          (elim user.avatar [ none ↦ none | some file ↦ some (st.url file) ])),
    send_task (Task.process_user_avatar user.id) db,
  )

  -- `upload_avatar`, once the user has been found
  unfoldable pub upload_avatar_of : String → User → User → Option Upload → Action (Response Reply)
  upload_avatar_of code caller user file db =
      if not (may_edit_user caller user)
      then (reply 403 (error "Вы можете изменить только свой аватар"), db)
      else elim file [
        | none ↦ (reply 400 (error "Файл аватара обязателен"), db)
        | some f ↦
            avatar_saved (save_user code (record user { avatar = some (st.store "avatars" f) }) db)
      ]

  -- `upload_avatar`
  unfoldable pub upload_avatar : String → User → ℕ → Option Upload → Action (Response Reply)
  upload_avatar code caller pk file db = elim (found_in (λ u. u.id) pk db.users.rows) [
    | err e ↦ (err e, db)
    | ok user ↦ upload_avatar_of code caller user file db
  ]

  -- `upload_image`, once the product has been found
  unfoldable pub upload_image_of : User → Product → Option Upload → Action (Response Reply)
  upload_image_of caller product file db =
      if not (may_edit caller product db)
      then (reply 403 (error "Вы можете изменить только изображения своих товаров"), db)
      else elim file [
        | none ↦ (reply 400 (error "Файл изображения обязателен"), db)
        | some f ↦
            let name = st.store "products" f in
            (
              reply 200 (
                  uploaded "Изображение загружено. Идёт обработка миниатюр..."
                    (some (st.url name))),
              send_task (Task.process_product_image product.id) (record db {
                products = update (record product { image = some name }) db.products;
              }),
            )
      ]

  -- `upload_image`
  unfoldable pub upload_image : User → ℕ → Option Upload → Action (Response Reply)
  upload_image caller pk file db = elim (get_product caller pk db) [
    | err e ↦ (err e, db)
    | ok product ↦ upload_image_of caller product file db
  ]

  -- `ProductImage.objects.create(product=product, image=…, sort_order=…)`
  abbrev pub image_row : Product → Upload → ℕ → ℕ → ProductImage
  image_row product file sort_order id = record {
    id = id;
    product = product.id;
    image = some (st.store "products/additional" file);
    image_thumbnail = none;
    image_small = none;
    image_medium = none;
    sort_order = sort_order;
  }

  -- `add_additional_image`, once the product has been found; `sort_order` is a number or absent
  unfoldable pub add_image_to : User → Product → Option Upload → ℕ → Action (Response Reply)
  add_image_to caller product file sort_order db =
      if not (may_edit caller product db)
      then (reply 403 (error "Вы можете добавлять изображения только к своим товарам"), db)
      else elim file [
        | none ↦ (reply 400 (error "Файл изображения обязателен"), db)
        | some f ↦
            let (row, images) = insert (image_row product f sort_order) db.images in
            (
              reply 201 (image_data row),
              send_task (Task.process_product_additional_image row.id)
                  (record db { images = images }),
            )
      ]

  -- `add_additional_image`
  unfoldable pub add_additional_image : User → ℕ → Option Upload → ℕ → Action (Response Reply)
  add_additional_image caller pk file sort_order db = elim (get_product caller pk db) [
    | err e ↦ (err e, db)
    | ok product ↦ add_image_to caller product file sort_order db
  ]

-- `delete_avatar`, once the user has been found
unfoldable pub delete_avatar_of : String → User → User → Action (Response Reply)
delete_avatar_of code caller user db =
    if not (may_edit_user caller user)
    then (reply 403 (error "Вы можете удалить только свой аватар"), db)
    else elim user.avatar [
      | none ↦ (reply 400 (error "У пользователя нет аватара"), db)
      | some file ↦
          (let (r, db') = drop_avatars code user db in
            elim r [ ok _ ↦ (reply 200 (message "Аватар удалён"), db') | err e ↦ (err e, db') ])
    ]

-- `delete_avatar`
unfoldable pub delete_avatar : String → User → ℕ → Action (Response Reply)
delete_avatar code caller pk db = elim (found_in (λ u. u.id) pk db.users.rows) [
  | err e ↦ (err e, db)
  | ok user ↦ delete_avatar_of code caller user db
]

-- `remove_additional_image`; `image_id` is the query parameter, as a number
unfoldable pub remove_additional_image : User → ℕ → Option ℕ → Action (Response Reply)
remove_additional_image caller pk image_id db = elim (get_product caller pk db) [
  | err e ↦ (err e, db)
  | ok product ↦ elim image_id [
    | none ↦ (reply 400 (error "Параметр image_id обязателен"), db)
    | some id ↦ elim (find (λ i. (i.id == id) && (i.product == product.id)) db.images.rows) [
      | none ↦ (reply 404 (error "Изображение не найдено"), db)
      | some image ↦ (
        reply 200 (message "Изображение удалено"),
        record db { images = delete (λ i. i.id == image.id) db.images },
      )
    ]
  ]
]

-- `toggle_accept_orders`: the new value, and the answer
unfoldable pub toggle_accept_orders : User → ℕ → Action (Response Reply)
toggle_accept_orders caller pk db = elim (found_in (λ s. s.id) pk db.suppliers.rows) [
  | err e ↦ (err e, db)
  | ok s ↦ (
    reply 200 (
        accepts (if not s.is_active then "Прием заказов включен" else "Прием заказов выключен")
          (not s.is_active)),
    record db { suppliers = update (record s { is_active = not s.is_active }) db.suppliers },
  )
]
