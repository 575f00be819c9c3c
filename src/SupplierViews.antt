-- ===== src/SupplierViews.antt =====
-- The generic views of `SupplierViewSet` in orders/backend/views.py with `SupplierSerializer` of
-- serializers.py, and the tax number column of `Supplier` in models.py. The views ask for
-- `IsAuthenticated` alone and find every supplier. The texts of a request are trimmed and not empty,
-- as the fields of the serializer leave them.
pub mod TaxColumn
use Prim.Native.String.{[], ◌∷◌}
use python_diplom.Base.{
  ℕ, zero, suc, String, Bool, true, false, not, ◌&&◌, ◌||◌, Option, none, some, any, str_eq, ◌==◌,
  leb, or_default, is_some, if◌then◌else◌,
}
use python_diplom.Exn.{Result, ok, err, integrity_error, protected_error, does_not_exist}
use python_diplom.Text.{Unicode, len, all_chars}
use python_diplom.Table.{get, update, delete}
use python_diplom.Models.{
  Db, User, Supplier, user_model, supplier_model, product_model, image_model, value_model,
  log_model,
}
use python_diplom.Action.{Action, Response}
use python_diplom.Accounts.{Django, UserView, user_data}
use python_diplom.Uploads.{found_in}

module _ ⦃u : Unicode⦄ where
  -- `\d{n}` at the front of a text; `\d` is a digit that `int` reads
  abbrev pub digits_first : ℕ → String → Bool
  digits_first zero s = true
  digits_first (suc n) [] = false
  digits_first (suc n) (c ∷ s) = is_some (u.digit_value c) && digits_first n s

  -- `\d{12}$`
  abbrev pub twelve_last : String → Bool
  twelve_last [] = false
  twelve_last (c ∷ s) =
      ((len (c ∷ s) == 12) && all_chars (λ c. is_some (u.digit_value c)) (c ∷ s)) || twelve_last s

  -- The column's validator, `^\d{10}|\d{12}$`, whose two cases are each anchored at one end.
  unfoldable pub matches_column : String → Bool
  matches_column s = digits_first 10 s || twelve_last s

-- What a PUT or a PATCH sends; `user` is read-only. A POST has the same fields.
pub record SupplierPatch : Type 0 where
  pub company_name : Option String
  pub contact_person : Option String
  pub phone : Option String
  pub email : Option String
  pub address : Option String
  pub tax_number : Option String
  pub is_active : Option Bool

abbrev pub patched : SupplierPatch → Supplier → Supplier
patched d s = record s {
  company_name = or_default s.company_name d.company_name;
  contact_person = or_default s.contact_person d.contact_person;
  phone = or_default s.phone d.phone;
  email = or_default s.email d.email;
  address = or_default s.address d.address;
  tax_number = or_default s.tax_number d.tax_number;
  is_active = or_default s.is_active d.is_active;
}

-- The checks of the column: its length, the validator, and that no row but the excluded one has it.
unfoldable pub tax_number_refused : ⦃u : Unicode⦄ → Option String → (ℕ → Bool) → Db → Bool
tax_number_refused none excluded db = false
tax_number_refused (some t) excluded db =
    not (leb (len t) 12 && matches_column t)
    || any (λ s. not (excluded s.id) && str_eq s.tax_number t) db.suppliers.rows

pub data Reply : Type 0 where
  supplier_data : Supplier → UserView → Reply
  invalid : String → Reply
  no_content : Reply

abbrev pub reply : ℕ → Reply → Result (Response Reply)
reply status body = ok (record { status = status; body = body })

module _ ⦃d : Django⦄ where
  -- `SupplierSerializer(supplier).data`, with the user in it; a foreign key always finds its row
  unfoldable pub shown : (String → String) → Supplier → Db → Result (Response Reply)
  shown build s db = elim (get s.user db.users) [
    | none ↦ err does_not_exist
    | some user ↦ elim (user_data (some build) user) [
      | err e ↦ err e
      | ok v ↦ reply 200 (supplier_data s v)
    ]
  ]

  -- `GET` on a supplier
  unfoldable pub retrieve_supplier : (String → String) → User → ℕ → Action (Response Reply)
  retrieve_supplier build caller pk db = elim (found_in (λ s. s.id) pk db.suppliers.rows) [
    | err e ↦ (err e, db)
    | ok s ↦ (shown build s db, db)
  ]

  -- `PUT` and `PATCH` on a supplier
  unfoldable pub patch_supplier :
      ⦃u : Unicode⦄ → (String → String) → User → ℕ → SupplierPatch → Action (Response Reply)
  patch_supplier build caller pk patch db = elim (found_in (λ s. s.id) pk db.suppliers.rows) [
    | err e ↦ (err e, db)
    | ok s ↦
        if tax_number_refused patch.tax_number (λ id. id == s.id) db
        then (reply 400 (invalid "tax_number"), db)
        else (
          shown build (patched patch s) db,
          record db { suppliers = update (patched patch s) db.suppliers },
        )
  ]

-- `POST` on the list of suppliers: `user` is never set, and the database refuses a profile without it.
unfoldable pub post_supplier : ⦃u : Unicode⦄ → User → SupplierPatch → Action (Response Reply)
post_supplier caller d db =
    if tax_number_refused d.tax_number (λ id. false) db
    then (reply 400 (invalid "tax_number"), db)
    else (err integrity_error, db)

-- The deletion of a supplier takes its products, with their pictures and values, and its log with it.
-- An item of an order protects its supplier and its product.
abbrev pub in_stock_of : ℕ → Db → ℕ → Bool
in_stock_of supplier db product =
    any (λ p. (p.id == product) && (p.supplier == supplier)) db.products.rows

unfoldable pub delete_supplier : Supplier → Db → Result (Unit {0}) × Db
delete_supplier s db =
    if any (λ i. (i.supplier == s.id) || in_stock_of s.id db i.product) db.items.rows
    then (err protected_error, db)
    else (
      ok tt,
      record db {
        suppliers = delete (λ t. t.id == s.id) db.suppliers;
        products = delete (λ p. p.supplier == s.id) db.products;
        images = delete (λ i. in_stock_of s.id db i.product) db.images;
        product_attributes = delete (λ v. in_stock_of s.id db v.product) db.product_attributes;
        logs = delete (λ l. l.supplier == s.id) db.logs;
      },
    )

abbrev pub removed : Result (Unit {0}) × Db → Result (Response Reply) × Db
removed (ok x, db) = (reply 204 no_content, db)
removed (err e, db) = (err e, db)

-- `DELETE` on a supplier
unfoldable pub destroy_supplier : User → ℕ → Action (Response Reply)
destroy_supplier caller pk db = elim (found_in (λ s. s.id) pk db.suppliers.rows) [
  | err e ↦ (err e, db)
  | ok s ↦ removed (delete_supplier s db)
]
