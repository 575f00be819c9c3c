-- ===== src/Admin.antt =====
-- The columns that orders/backend/admin.py computes for the pages of the admin. `format_html` of
-- Django, with a template that is named here by what it shows, is a parameter.
pub mod Badges
use Prim.Native.String.{[], ◌∷◌}
use Prim.Native.String
use python_diplom.Base.{
  ℕ, zero, suc, ◌+◌, ◌*◌, String, Bool, Option, none, some, List, keep, length, find, ◌==◌, ltb,
  if◌then◌else◌,
}
use python_diplom.Text.{len, show}
use python_diplom.Table.{get}
use python_diplom.Models.{
  Db, User, Supplier, Category, Attribute, Product, ProductImage, Order, PriceUpdateLog, Status,
  FileField, user_model,
}
use python_diplom.Uploads.{Storage}

-- What a cell shows: a picture at a URL with its width in pixels, an empty box, a box with a letter, a
-- badge of a colour, a number of products, or a text.
pub data Cell : Type 0 where
  picture : String → ℕ → Cell
  box : ℕ → Cell
  letter_box : String → Cell
  badge : String → String → Cell
  products : ℕ → Cell
  label : String → Cell

module _ ⦃st : Storage⦄ where
  -- `if small: …` `elif image: …` and a last resort
  abbrev pub picture_or : FileField → FileField → ℕ → Cell → Cell
  picture_or (some small) image width other = picture (st.url small) width
  picture_or none (some image) width other = picture (st.url image) width
  picture_or none none width other = other

  -- `UserAdmin`
  unfoldable pub avatar_thumbnail : User → Cell
  avatar_thumbnail u = picture_or u.avatar_small u.avatar 40 (box 40)

  unfoldable pub avatar_preview : User → Cell
  avatar_preview u = picture_or u.avatar_medium u.avatar 200 (label "No avatar")

  -- the user behind `obj.user`, whose picture `file` picks
  abbrev pub user_picture : (User → FileField) → Db → Supplier → ℕ → Cell → Cell
  user_picture file db s width other = elim (get s.user db.users) [
    | none ↦ other
    | some u ↦ picture_or (file u) none width other
  ]

  -- `SupplierAdmin`
  unfoldable pub logo_thumbnail : Db → Supplier → Cell
  logo_thumbnail db s = user_picture (λ u. u.avatar_small) db s 40 (letter_box "S")

  unfoldable pub logo_preview : Db → Supplier → Cell
  logo_preview db s = user_picture (λ u. u.avatar_medium) db s 200 (label "No logo")

  -- `ProductAdmin` and `ProductImageAdmin`
  unfoldable pub product_thumbnail : Product → Cell
  product_thumbnail p = picture_or p.image_thumbnail p.image 50 (box 50)

  unfoldable pub product_preview : Product → Cell
  product_preview p = picture_or p.image_medium p.image 300 (label "No image")

  unfoldable pub image_thumbnail : ProductImage → Cell
  image_thumbnail i = picture_or i.image_thumbnail i.image 50 (box 50)

-- `obj.products.count()` of `SupplierAdmin` and `CategoryAdmin`
unfoldable pub supplier_products : Db → Supplier → ℕ
supplier_products db s = length (keep (λ p. p.supplier == s.id) db.products.rows)

unfoldable pub products_count_display : Db → Supplier → Cell
products_count_display db s = products (supplier_products db s)

unfoldable pub category_products : Db → Category → ℕ
category_products db c = length (keep (λ p. p.category == c.id) db.products.rows)

-- `obj.productattribute_set.count()`
unfoldable pub attribute_values : Db → Attribute → ℕ
attribute_values db a = length (keep (λ v. v.attribute == a.id) db.product_attributes.rows)

-- `colors` and `get_status_display` of `OrderAdmin.status_badge`
abbrev pub status_color : Status → String
status_color Status.pending = "#ff9800"
status_color Status.confirmed = "#4CAF50"
status_color Status.processing = "#2196F3"
status_color Status.shipped = "#9C27B0"
status_color Status.delivered = "#009688"
status_color Status.cancelled = "#f44336"

abbrev pub status_display : Status → String
status_display Status.pending = "Ожидает обработки"
status_display Status.confirmed = "Подтвержден"
status_display Status.processing = "В обработке"
status_display Status.shipped = "Отправлен"
status_display Status.delivered = "Доставлен"
status_display Status.cancelled = "Отменен"

unfoldable pub order_badge : Order → Cell
order_badge o = badge (status_color o.status) (status_display o.status)

-- `items_count`
unfoldable pub items_count : Db → Order → ℕ
items_count db o = length (keep (λ i. i.order == o.id) db.items.rows)

-- `value[:n]`
abbrev pub first_chars : ℕ → String → String
first_chars zero s = []
first_chars (suc n) [] = []
first_chars (suc n) (c ∷ s) = c ∷ first_chars n s

unfoldable pub delivery_address_short : Order → String
delivery_address_short o =
    if ltb 50 (len o.delivery_address)
    then String.◌++◌ (first_chars 50 o.delivery_address) "..."
    else o.delivery_address

-- `PriceUpdateLogAdmin.status_badge`; the half of a whole number is exact
unfoldable pub log_badge : PriceUpdateLog → Cell
log_badge l =
    if l.failed_count == 0
    then badge "#4CAF50" "Success"
    else if ltb (2 * l.failed_count) l.records_count
    then badge "#ff9800" "Partial"
    else badge "#f44336" "Failed"
