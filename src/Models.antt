-- ===== src/Models.antt =====
-- The tables of orders/backend/models.py: one record for each model class, with the fields that
-- the code reads or writes. Timestamps are kept where the code reads them. Amounts of money are in
-- hundredths. A file field is `none` when it is empty, and otherwise the name of the stored file.
use python_diplom.Base.{ℕ, String, Bool, true, false, Option, List, find, ◌==◌}
use python_diplom.Base.Int.{ℤ}
use python_diplom.Table.{Table, Model}

-- `User.USER_TYPE_CHOICES`; `unset` is the empty text
pub data UserType : Type 0 where
  client supplier admin unset : UserType

-- `Order.STATUS_CHOICES`
pub data Status : Type 0 where
  pending confirmed processing shipped delivered cancelled : Status

abbrev pub FileField : Type 0
FileField = Option String

pub record User : Type 0 where
  pub id : ℕ
  pub username : String
  pub email : String
  pub first_name : String
  pub last_name : String
  pub user_type : UserType
  pub phone : String
  pub company_name : String
  pub address : String
  pub is_active : Bool
  pub is_staff : Bool
  pub supplier_code : Option String
  pub accepts_orders : Bool
  pub avatar : FileField
  pub avatar_small : FileField
  pub avatar_medium : FileField
  pub avatar_large : FileField

-- `user` is the key of the one-to-one row in `users`.
pub record Supplier : Type 0 where
  pub id : ℕ
  pub user : ℕ
  pub company_name : String
  pub contact_person : String
  pub phone : String
  pub email : String
  pub address : String
  pub tax_number : String
  pub is_active : Bool

pub record Category : Type 0 where
  pub id : ℕ
  pub name : String
  pub parent : Option ℕ

pub record Attribute : Type 0 where
  pub id : ℕ
  pub name : String

pub record Product : Type 0 where
  pub id : ℕ
  pub supplier : ℕ
  pub category : ℕ
  pub name : String
  pub sku : String
  pub description : String
  pub price : ℤ
  pub cost_price : Option ℤ
  pub stock_quantity : ℕ
  pub min_order_quantity : ℕ
  pub unit : String
  pub is_active : Bool
  pub image : FileField
  pub image_thumbnail : FileField
  pub image_small : FileField
  pub image_medium : FileField
  pub image_large : FileField

pub record ProductImage : Type 0 where
  pub id : ℕ
  pub product : ℕ
  pub image : FileField
  pub image_thumbnail : FileField
  pub image_small : FileField
  pub image_medium : FileField
  pub sort_order : ℕ

pub record ProductAttribute : Type 0 where
  pub id : ℕ
  pub product : ℕ
  pub attribute : ℕ
  pub value : String

-- `client` is a key in `users`.
pub record Order : Type 0 where
  pub id : ℕ
  pub client : ℕ
  pub order_number : String
  pub status : Status
  pub total_amount : ℤ
  pub delivery_address : String
  pub contact_phone : String
  pub notes : String
  pub created_at : ℕ
  pub confirmed_at : Option ℕ

pub record OrderItem : Type 0 where
  pub id : ℕ
  pub order : ℕ
  pub product : ℕ
  pub supplier : ℕ
  pub quantity : ℕ
  pub price : ℤ
  pub subtotal : ℤ

pub record PriceUpdateLog : Type 0 where
  pub id : ℕ
  pub supplier : ℕ
  pub file_name : String
  pub records_count : ℕ
  pub success_count : ℕ
  pub failed_count : ℕ
  pub notes : String

instance abbrev pub user_model : Model User
user_model = record { pk = λ u. u.id }

instance abbrev pub supplier_model : Model Supplier
supplier_model = record { pk = λ s. s.id }

instance abbrev pub product_model : Model Product
product_model = record { pk = λ p. p.id }

instance abbrev pub image_model : Model ProductImage
image_model = record { pk = λ i. i.id }

instance abbrev pub order_model : Model Order
order_model = record { pk = λ o. o.id }

instance abbrev pub item_model : Model OrderItem
item_model = record { pk = λ i. i.id }

instance abbrev pub category_model : Model Category
category_model = record { pk = λ c. c.id }

instance abbrev pub attribute_model : Model Attribute
attribute_model = record { pk = λ a. a.id }

instance abbrev pub value_model : Model ProductAttribute
value_model = record { pk = λ v. v.id }

instance abbrev pub log_model : Model PriceUpdateLog
log_model = record { pk = λ l. l.id }

-- The calls `task.delay(id)` of orders/backend/tasks.py, as messages to the broker.
pub data Task : Type 0 where
  send_order_confirmation_email send_invoice_email : ℕ → Task
  process_user_avatar process_product_image process_product_additional_image : ℕ → Task

-- The database, and the messages sent so far. What the media storage holds is not modelled.
pub record Db : Type 0 where
  pub users : Table User
  pub suppliers : Table Supplier
  pub products : Table Product
  pub images : Table ProductImage
  pub categories : Table Category
  pub attributes : Table Attribute
  pub product_attributes : Table ProductAttribute
  pub orders : Table Order
  pub items : Table OrderItem
  pub logs : Table PriceUpdateLog
  pub queue : List Task

abbrev pub is_supplier : UserType → Bool
is_supplier supplier = true
is_supplier _ = false

abbrev pub is_client : UserType → Bool
is_client client = true
is_client _ = false

-- `user.supplier_profile`; `none` is `RelatedObjectDoesNotExist`
abbrev pub supplier_profile : ℕ → Db → Option Supplier
supplier_profile user db = find (λ s. s.user == user) db.suppliers.rows
