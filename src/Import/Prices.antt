-- ===== src/Import/Prices.antt =====
-- What a price that `Decimal` cannot read does to an import: `_validate_product_data` catches
-- `ValueError` and `TypeError`, and `decimal.InvalidOperation` is neither.
use Prim.Native.String
use python_diplom.Base.{
  ℕ, suc, String, Bool, true, Option-cases, Option, none, some, List, [], str_eq, ◌≡◌, refl, inl,
  inr, if◌then◌else◌, ◌⊎◌, sym, ◌∷◌, or_default, not, ap,
}
use python_diplom.Exn.{Result, ok, err, Exn, invalid_operation, err-ne-ok}
use python_diplom.Text.{Unicode}
use python_diplom.Models.{Db, Supplier, User, is_supplier, supplier_profile}
use python_diplom.Python.{
  Python, Value, Items, nil, cons, Fields, dict, text, find_field, has_key, item, truthy,
}
use python_diplom.RecordCheck.{validate, required_error, price_errors, error_if}
use python_diplom.PriceList.{process_record}
use python_diplom.FileFormats.{
  Parsers, records, ImportRequest, PriceFile, read_file, detect_format, is_choice,
}
use python_diplom.Import.{
  Tally, no_records, import_items, next_record, counted, atomic, logged, import_read,
  import_products,
}

-- The file has such a record.
abbrev pub HasRecord : Value → Items → Type 0
HasRecord entry nil = ⊥
HasRecord entry (cons v vs) = (entry ≡ v) ⊎ HasRecord entry vs

-- `price` is there, a text that `Decimal` does not read.
pub record HasBadPrice ⦃py : Python⦄ (fs : Fields) : Type 0 where
  pub price : String
  pub raised : Exn
  pub given : find_field "price" fs ≡ some (text price)
  pub unread : py.decimal price ≡ err raised

module _ ⦃py : Python⦄ where
  abbrev missing : String → String
  missing k = String.◌++◌ "Отсутствует обязательное поле: " k

  required_error-dict :
      (k : String) (fs : Fields) → (es : List String) × (required_error k (dict fs) ≡ ok es)
  unfolding required_error has_key item
  required_error-dict k fs = elim (Option-cases (find_field k fs)) [
    | inl h ↦ (missing k ∷ [], rw (h, required_error) refl)
    | inr (v, h) ↦ (error_if (not (truthy v)) (missing k), rw (h, required_error) refl)
  ]

  price_errors-raises :
      (fs : Fields) → HasBadPrice fs → price_errors (dict fs) ≡ err invalid_operation
  unfolding price_errors has_key item
  price_errors-raises fs bad =
      rw
        (
          bad.given,
          price_errors,
          py.str_text bad.price,
          bad.unread,
          py.decimal-raises bad.price bad.raised bad.unread,
        )
        refl

  validate-raises :
      (row_num : Option ℕ) (fs : Fields)
      → HasBadPrice fs
      → validate row_num (dict fs) ≡ err invalid_operation
  unfolding validate
  validate-raises row_num fs bad =
      let (e₁, h₁) = required_error-dict "sku" fs in
      let (e₂, h₂) = required_error-dict "name" fs in
      let (e₃, h₃) = required_error-dict "price" fs in
      let (e₄, h₄) = required_error-dict "stock_quantity" fs in
      rw (validate, h₁, h₂, h₃, h₄, price_errors-raises fs bad) refl

next_record-raises :
    (next : Tally → Db → Result Tally × Db) (t : Tally) (r : Result (Bool × List String)) (db : Db)
    → ((t : Tally) (db : Db) → (e : Exn) × ((next t db).0 ≡ err e))
    → (e : Exn) × ((next_record next t (r, db)).0 ≡ err e)
next_record-raises next t (err e) db step = (e, refl)
next_record-raises next t (ok outcome) db step = step (counted outcome t) db

logged-raises :
    ⦃u : Unicode⦄
    → (s : Supplier) (name format : String) (r : Result Tally) (db : Db) (e : Exn) (before : Db)
    → r ≡ err e
    → logged s name format (atomic before (r, db)) ≡ (err e, before)
logged-raises s name format (ok t) db e before h = absurd (err-ne-ok (sym h))
logged-raises s name format (err x) db e before h =
    ap (λ r. logged s name format (atomic before (r, db))) h

module _ ⦃u : Unicode⦄ ⦃py : Python⦄ where
  process_record-raises :
      (s : Supplier) (upd : Bool) (row_num : Option ℕ) (fs : Fields) (db : Db)
      → HasBadPrice fs
      → process_record s upd row_num (dict fs) db ≡ (err invalid_operation, db)
  unfolding process_record
  process_record-raises s upd row_num fs db bad =
      rw (process_record, validate-raises row_num fs bad) refl

  -- The loop gets to the record, or raises before it.
  import_items-raises :
      (s : Supplier) (upd numbered : Bool) (i : ℕ) (items : Items) (t : Tally) (fs : Fields)
      (db : Db)
      → HasBadPrice fs
      → HasRecord (dict fs) items
      → (e : Exn) × ((import_items s upd numbered i items t db).0 ≡ err e)
  unfolding import_items
  import_items-raises s upd numbered i nil t fs db bad has = absurd has
  import_items-raises s upd numbered i (cons v rest) t fs db bad (inl here) =
      let row = if numbered then some i else none in
      (
        invalid_operation,
        rw (import_items, sym here, process_record-raises s upd row fs db bad) refl,
      )
  import_items-raises s upd numbered i (cons v rest) t fs db bad (inr later) =
      let row = if numbered then some i else none in
      next_record-raises (import_items s upd numbered (suc i) rest) t
        (process_record s upd row v db).0 (process_record s upd row v db).1
        (λ t db. import_items-raises s upd numbered (suc i) rest t fs db bad later)

  -- When a record of a supplier's file has a text as its price that `Decimal` does not read, the
  -- import raises an exception and the database is as before, whatever the other records are.
  pub bad_price_stops :
      ⦃ps : Parsers⦄
      → (user : User) (request : ImportRequest) (file : PriceFile) (items : Items) (fs : Fields)
        (s : Supplier) (db : Db)
      → request.file ≡ some file
      → is_choice (or_default "auto" request.format) ≡ true
      → read_file (detect_format file.name (or_default "auto" request.format)) file ≡ records items
      → is_supplier user.user_type ≡ true
      → supplier_profile user.id db ≡ some s
      → HasBadPrice fs
      → HasRecord (dict fs) items
      → (e : Exn) × (import_products user request db ≡ (err e, db))
  unfolding import_products import_read
  bad_price_stops user request file items fs s db f c r b h bad has =
      let format = detect_format file.name (or_default "auto" request.format) in
      let upd = or_default true request.update_existing in
      let (e, raised) =
        import_items-raises s upd (str_eq format "csv") 1 items no_records fs db bad has in
      (
        e,
        rw (f, c, r, import_products, import_read, b, h)
            (logged-raises s file.name format
              (import_items s upd (str_eq format "csv") 1 items no_records db).0
              (import_items s upd (str_eq format "csv") 1 items no_records db).1 e db raised),
      )
