-- ===== src/Titles.antt =====
-- The text forms of the rows: the `__str__` methods of the model classes of orders/backend/models.py.
-- A foreign key whose row is missing has no text form: `DoesNotExist`.
use Prim.Native.String
use python_diplom.Base.{String, ℕ}
use python_diplom.Base.{none, some}
use python_diplom.Exn.{Result, ok, err, ◌>>=◌, does_not_exist}
use python_diplom.Text.{show}
use python_diplom.Table.{Table, Model, get}
use python_diplom.Models.{
  Db, User, UserType, Supplier, Category, Attribute, Product, ProductImage, ProductAttribute, Order,
  OrderItem, PriceUpdateLog, product_model, attribute_model, supplier_model,
}

-- The row behind a foreign key.
unfoldable pub related {ℓ} : {A : Type ℓ} → ⦃m : Model A⦄ → ℕ → Table A → Result A
related id t = elim (get id t) [ none ↦ err does_not_exist | some a ↦ ok a ]

abbrev pub joined : String → String → String → String
joined a between b = String.◌++◌ a (String.◌++◌ between b)

-- `get_user_type_display`
abbrev pub user_type_display : UserType → String
user_type_display UserType.client = "Клиент"
user_type_display UserType.supplier = "Поставщик"
user_type_display UserType.admin = "Администратор"
user_type_display UserType.unset = ""

unfoldable pub user_title : User → String
user_title u = joined u.username " (" (String.◌++◌ (user_type_display u.user_type) ")")

unfoldable pub supplier_title : Supplier → String
supplier_title s = s.company_name

unfoldable pub category_title : Category → String
category_title c = c.name

unfoldable pub attribute_title : Attribute → String
attribute_title a = a.name

unfoldable pub product_title : Product → String
product_title p = joined p.name " (" (String.◌++◌ p.sku ")")

unfoldable pub image_title : Db → ProductImage → Result String
image_title db i = do
  product ← related i.product db.products
  ok (joined product.name " - Image " (show i.sort_order))

unfoldable pub value_title : Db → ProductAttribute → Result String
value_title db v = do
  product ← related v.product db.products
  attribute ← related v.attribute db.attributes
  ok (joined product.name " - " (joined attribute.name ": " v.value))

unfoldable pub order_title : Order → String
order_title o = String.◌++◌ "Заказ № " o.order_number

unfoldable pub item_title : Db → OrderItem → Result String
item_title db i = do
  product ← related i.product db.products
  ok (joined product.name " x " (show i.quantity))

-- `created_at` is the text of the time at which the log was written.
unfoldable pub log_title : Db → String → PriceUpdateLog → Result String
log_title db created_at l = do
  supplier ← related l.supplier db.suppliers
  ok (joined supplier.company_name " - " created_at)
