-- ===== src/Import/Frame.antt =====
-- What a whole import keeps: a property of the database that the writes of one record keep, and the
-- writing of the log.
use python_diplom.PriceList.Frame.{Keeps}
use python_diplom.Table.{insert}
use python_diplom.Base.{
  some, ◌≡◌, Bool, true, Bool-cases, Option-cases, inl, inr, str_eq, String, or_default,
}
use python_diplom.Exn.{Result, ok, err}
use python_diplom.Text.{Unicode}
use python_diplom.Models.{log_model, Db, User, is_supplier, supplier_profile}
use python_diplom.Python.{Python}
use python_diplom.Import.Keys.{import_items-keeps}
use python_diplom.FileFormats.{
  Parsers, ImportRequest, Parsed, refused, records, read_file, detect_format, is_choice,
}
use python_diplom.Import.{
  Tally, atomic, logged, import_items, no_records, import_read, import_products, Supplier, log_row,
}

-- The property holds after a log of the supplier has been written if it held before.
abbrev pub KeepsLog : Supplier → (Db → Type 0) → Type 0
KeepsLog s Q =
    (name : String) (t : Tally) (db : Db)
    → Q db
    → Q (record db { logs = (insert (log_row s name t) db.logs).1 })

module _ (Q : Db → Type 0) where
  logged-keeps :
      ⦃u : Unicode⦄
      → (s : Supplier) (name format : String) (r : Result Tally) (db before : Db) → KeepsLog s Q
      → Q before
      → Q db
      → Q (logged s name format (atomic before (r, db))).1
  logged-keeps s name format (err e) db before log b q = b
  logged-keeps s name format (ok t) db before log b q = log name t db q

  module _ ⦃u : Unicode⦄ ⦃py : Python⦄ where
    import_read-keeps :
        (user : User) (upd : Bool) (name format : String) (parsed : Parsed) (db : Db)
        → ((s : Supplier) → supplier_profile user.id db ≡ some s → Keeps s upd Q × KeepsLog s Q)
        → Q db
        → Q (import_read user upd name format parsed db).1
    unfolding import_read
    import_read-keeps user upd name format (refused answer) db kept q = q
    import_read-keeps user upd name format (records items) db kept q =
        elim (Bool-cases (is_supplier user.user_type)) [
          | inr b ↦ rw (b, import_read) q
          | inl b ↦ elim (Option-cases (supplier_profile user.id db)) [
            | inl h ↦ rw (b, h, import_read) q
            | inr (s, h) ↦
                rw (b, h, import_read)
                  (logged-keeps s name format
                    (import_items s upd (str_eq format "csv") 1 items no_records db).0
                    (import_items s upd (str_eq format "csv") 1 items no_records db).1 db
                    (kept s h).1 q
                    (import_items-keeps s upd Q (kept s h).0 (str_eq format "csv") 1 items
                      no_records db q))
          ]
        ]

    pub import_products-keeps :
        ⦃ps : Parsers⦄
        → (user : User) (request : ImportRequest) (db : Db)
        → ((s : Supplier)
            → supplier_profile user.id db ≡ some s
            → Keeps s (or_default true request.update_existing) Q × KeepsLog s Q)
        → Q db
        → Q (import_products user request db).1
    unfolding import_products
    import_products-keeps user request db kept q = elim (Option-cases request.file) [
      | inl f ↦ rw (f, import_products) q
      | inr (file, f) ↦ elim (Bool-cases (is_choice (or_default "auto" request.format))) [
        | inr c ↦ rw (f, c, import_products) q
        | inl c ↦
            let format = detect_format file.name (or_default "auto" request.format) in
            rw (f, c, import_products)
              (import_read-keeps user (or_default true request.update_existing) file.name format
                (read_file format file) db kept q)
      ]
    ]
