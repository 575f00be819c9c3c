-- ===== src/Import.antt =====
-- The import of a price list: the loop, the log and the report of `import_products` of
-- `ProductViewSet` in orders/backend/views.py, and who sees which logs.
pub mod Frame
pub mod Keys
pub mod Additions
pub mod Catalogue
pub mod LinkedTables
pub mod Links
pub mod Reports
pub mod Prices
use Prim.Native.String.{[], ◌∷◌}
use Prim.Native.String
use python_diplom.Base.{
  ℕ, suc, ◌+◌, String, Bool, true, false, not, ◌||◌, Option, none, some, List, ◌++◌, length, take,
  str_eq, ltb, if◌then◌else◌, or_default, keep, ◌==◌,
}
use python_diplom.Exn.{Result, ok, err, does_not_exist}
use python_diplom.Text.{Unicode}
use python_diplom.Text.Split.{split_on}
use python_diplom.Table.{insert}
use python_diplom.Models.{
  Db, Supplier, PriceUpdateLog, log_model, User, is_supplier, supplier_profile,
}
use python_diplom.Action.{Response, Action}
use python_diplom.Python.{Value, array, Items, nil, cons, Python}
use python_diplom.PriceList.{process_record}
use python_diplom.FileFormats.{
  Parsers, PriceFile, ImportRequest, Report, Reply, invalid, error, report, reply, Parsed, refused,
  records, detect_format, is_choice, wrong_format, read_file, parse, format_mapping, is_supported,
  need_list,
}

-- `success_count`, `failed_count` and `errors`
pub record Tally : Type 0 where
  pub success_count : ℕ
  pub failed_count : ℕ
  pub errors : List String

abbrev pub no_records : Tally
no_records = record { success_count = 0; failed_count = 0; errors = List.[] }

abbrev pub counted : Bool × List String → Tally → Tally
counted (true, messages) t = record t { success_count = suc t.success_count }
counted (false, messages) t = record t {
  failed_count = suc t.failed_count;
  errors = t.errors ++ messages;
}

-- `with transaction.atomic()`: an exception takes the writes back.
abbrev pub atomic {ℓ} : {A : Type ℓ} → Db → Result A × Db → Result A × Db
atomic before (ok a, db) = (ok a, db)
atomic before (err e, db) = (err e, before)

-- `'\n'.join(errors)`
abbrev pub join_lines : List String → String
join_lines List.[] = ""
join_lines (List.◌∷◌ s List.[]) = s
join_lines (List.◌∷◌ s ss) = String.◌++◌ s (String.◌++◌ "\n" (join_lines ss))

abbrev pub log_row : Supplier → String → Tally → ℕ → PriceUpdateLog
log_row supplier file_name t id = record {
  id = id;
  supplier = supplier.id;
  file_name = file_name;
  records_count = t.success_count + t.failed_count;
  success_count = t.success_count;
  failed_count = t.failed_count;
  notes = join_lines t.errors;
}

abbrev pub report_of : ⦃u : Unicode⦄ → String → Tally → ℕ → Report
report_of ⦃u⦄ format t log_id = record {
  message = String.◌++◌ "Импорт из " (String.◌++◌ (u.upper format) " завершен");
  format = format;
  success_count = t.success_count;
  failed_count = t.failed_count;
  total_count = t.success_count + t.failed_count;
  log_id = log_id;
  errors = take 10 t.errors;
  total_errors = if ltb 10 (length t.errors) then some (length t.errors) else none;
}

abbrev pub next_record :
    (Tally → Db → Result Tally × Db) → Tally → Result (Bool × List String) × Db → Result Tally × Db
next_record next t (err e, db) = (err e, db)
next_record next t (ok outcome, db) = next (counted outcome t) db

module _ ⦃u : Unicode⦄ where
  -- `import_products`, from the log on
  abbrev pub logged : Supplier → String → String → Result Tally × Db → Result (Response Reply) × Db
  logged supplier file_name format (err e, db) = (err e, db)
  logged supplier file_name format (ok t, db) =
      let (log, table) = insert (log_row supplier file_name t) db.logs in
      (ok (reply 200 (report (report_of format t log.id))), record db { logs = table })

module _ ⦃u : Unicode⦄ ⦃py : Python⦄ where
  -- the loop of `import_products`; `index` is the number of the next record
  unfoldable pub import_items : Supplier → Bool → Bool → ℕ → Items → Tally → Db → Result Tally × Db
  import_items supplier upd numbered index nil t db = (ok t, db)
  import_items supplier upd numbered index (cons entry rest) t db =
      next_record (import_items supplier upd numbered (suc index) rest) t
        (process_record supplier upd (if numbered then some index else none) entry db)

  -- `import_products`, once the file has been read
  unfoldable pub import_read : User → Bool → String → String → Parsed → Action (Response Reply)
  unfolding import_items
  import_read user upd file_name format (refused answer) db = (ok answer, db)
  import_read user upd file_name format (records items) db =
      if not (is_supplier user.user_type)
      then (ok (reply 403 (error "Импорт товаров доступен только для поставщиков")), db)
      else elim (supplier_profile user.id db) [
        | none ↦ (err does_not_exist, db)
        | some supplier ↦
            logged supplier file_name format
              (atomic db (import_items supplier upd (str_eq format "csv") 1 items no_records db))
      ]

-- `import_products`
unfoldable pub import_products :
    ⦃u : Unicode⦄ → ⦃py : Python⦄ → ⦃ps : Parsers⦄ → User → ImportRequest → Action (Response Reply)
unfolding import_read
import_products user request db = elim request.file [
  | none ↦ (ok (reply 400 (invalid (List.◌∷◌ "file" (wrong_format request.format)))), db)
  | some file ↦
      if not (is_choice (or_default "auto" request.format))
      then (ok (reply 400 (invalid (wrong_format request.format))), db)
      else (let format = detect_format file.name (or_default "auto" request.format) in
          import_read user (or_default true request.update_existing) file.name format
            (read_file format file) db)
]

-- `PriceUpdateLogViewSet.get_queryset`
unfoldable pub visible_logs : User → Db → List PriceUpdateLog
visible_logs user db =
    if is_supplier user.user_type
    then elim (supplier_profile user.id db) [
      | none ↦ List.[]
      | some s ↦ keep (λ l. l.supplier == s.id) db.logs.rows
    ]
    else db.logs.rows
