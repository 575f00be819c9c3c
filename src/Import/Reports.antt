-- ===== src/Import/Reports.antt =====
-- The counts of an import, and what stays stored when it raises.
use python_diplom.Base.{
  ℕ, suc, ◌+◌, ◌≤◌, String, Bool, true, false, Bool-cases, Option-cases, none, some, List, [], ◌∷◌,
  ◌++◌, length, str_eq, ◌≡◌, refl, inl, inr, if◌then◌else◌, arith, ◌∙◌, ap, length-take_le,
}
use python_diplom.Exn.{Result, ok, err}
use python_diplom.Text.{Unicode}
use python_diplom.Table.{insert}
use python_diplom.Models.{Db, Supplier, User, is_supplier, supplier_profile, PriceUpdateLog}
use python_diplom.Action.{Response}
use python_diplom.Python.{Python, Items, nil, cons}
use python_diplom.PriceList.{process_record}
use python_diplom.Import.Keys.{others, others-Keeps, import_items-keeps}
use python_diplom.FileFormats.{
  is_choice, detect_format, read_file, PriceFile, Reply, Report, report, records, Parsers,
  ImportRequest,
}
use python_diplom.Import.{
  no_records, or_default, Tally, import_items, next_record, counted, atomic, logged, import_read,
  log_row, import_products,
}

-- the number of records in a file
abbrev pub size : Items → ℕ
size nil = 0
size (cons v vs) = suc (size vs)

abbrev pub total : Tally → ℕ
total t = t.success_count + t.failed_count

counted-total :
    (outcome : Bool × List String) (t : Tally) → total (counted outcome t) ≡ suc (total t)
counted-total (true, messages) t = omega arith
counted-total (false, messages) t = omega arith

-- A loop that returns has counted so many records.
abbrev HasTotal : ℕ → Result Tally → Type 0
HasTotal n (ok t) = total t ≡ n
HasTotal n (err e) = Unit

HasTotal-eq : (n k : ℕ) (r : Result Tally) → n ≡ k → HasTotal n r → HasTotal k r
HasTotal-eq n k (ok t) e h = h ∙ e
HasTotal-eq n k (err x) e h = tt

next_record-HasTotal :
    (next : Tally → Db → Result Tally × Db) (n : ℕ) (t : Tally) (r : Result (Bool × List String))
    (db : Db)
    → ((t : Tally) (db : Db) → HasTotal (total t + n) (next t db).0)
    → HasTotal (total t + suc n) (next_record next t (r, db)).0
next_record-HasTotal next n t (err e) db step = tt
next_record-HasTotal next n t (ok outcome) db step =
    HasTotal-eq (total (counted outcome t) + n) (total t + suc n) (next (counted outcome t) db).0
      (omega (arith, counted-total outcome t)) (step (counted outcome t) db)

import_items-HasTotal :
    ⦃u : Unicode⦄
    → ⦃py : Python⦄
    → (s : Supplier) (upd numbered : Bool) (i : ℕ) (items : Items) (t : Tally) (db : Db)
    → HasTotal (total t + size items) (import_items s upd numbered i items t db).0
unfolding import_items
import_items-HasTotal s upd numbered i nil t db = omega arith
import_items-HasTotal s upd numbered i (cons entry rest) t db =
    let row = if numbered then some i else none in
    next_record-HasTotal (import_items s upd numbered (suc i) rest) (size rest) t
      (process_record s upd row entry db).0 (process_record s upd row entry db).1
      (λ t db. import_items-HasTotal s upd numbered (suc i) rest t db)

-- The numbers of a report on `n` records: with them one row is added to the log, under the key that
-- the report names, and the other tables of `others` stay as they were.
pub record IsReport (n : ℕ) (before : Db) (r : Report) (after : Db) : Type 0 where
  pub log : PriceUpdateLog
  pub stored : after.logs.rows ≡ before.logs.rows ++ log ∷ []
  pub log_id : log.id ≡ r.log_id
  pub log_success : log.success_count ≡ r.success_count
  pub log_failed : log.failed_count ≡ r.failed_count
  pub log_total : log.records_count ≡ n
  pub total : r.success_count + r.failed_count ≡ n
  pub total_count : r.total_count ≡ n
  pub few : length r.errors ≤ 10
  pub users : after.users ≡ before.users
  pub suppliers : after.suppliers ≡ before.suppliers
  pub orders : after.orders ≡ before.orders
  pub items : after.items ≡ before.items

abbrev pub AnswerIsRight : ℕ → Db → Reply → Db → Type 0
AnswerIsRight n before (report r) after = IsReport n before r after
AnswerIsRight n before _ after = after ≡ before

-- Without a report, the database is as before.
abbrev pub OutcomeIsRight : ℕ → Db → Result (Response Reply) × Db → Type 0
OutcomeIsRight n before (ok answer, after) = AnswerIsRight n before answer.body after
OutcomeIsRight n before (err e, after) = after ≡ before

logged-OutcomeIsRight :
    ⦃u : Unicode⦄
    → (s : Supplier) (name format : String) (n : ℕ) (before : Db) (r : Result Tally) (db : Db)
    → HasTotal n r
    → others db ≡ others before
    → OutcomeIsRight n before (logged s name format (atomic before (r, db)))
unfolding insert
logged-OutcomeIsRight s name format n before (err e) db h q = refl
logged-OutcomeIsRight s name format n before (ok t) db h q = record {
  log = log_row s name t db.logs.next_id;
  stored = ap (λ o. o.5.rows ++ log_row s name t db.logs.next_id ∷ []) q;
  log_id = refl;
  log_success = refl;
  log_failed = refl;
  log_total = h;
  total = h;
  total_count = h;
  few = length-take_le 10 t.errors;
  users = ap (λ o. o.0) q;
  suppliers = ap (λ o. o.1) q;
  orders = ap (λ o. o.3) q;
  items = ap (λ o. o.4) q;
}

import_read-OutcomeIsRight :
    ⦃u : Unicode⦄
    → ⦃py : Python⦄ → (user : User) (upd : Bool) (name format : String) (items : Items) (db : Db)
    → OutcomeIsRight (size items) db (import_read user upd name format (records items) db)
unfolding import_read
import_read-OutcomeIsRight user upd name format items db =
    elim (Bool-cases (is_supplier user.user_type)) [
      | inr b ↦ rw (b, import_read) refl
      | inl b ↦ elim (Option-cases (supplier_profile user.id db)) [
        | inl h ↦ rw (b, h, import_read) refl
        | inr (s, h) ↦
            rw (b, h, import_read)
              (logged-OutcomeIsRight s name format (size items) db
                (import_items s upd (str_eq format "csv") 1 items no_records db).0
                (import_items s upd (str_eq format "csv") 1 items no_records db).1
                (HasTotal-eq (total no_records + size items) (size items)
                  (import_items s upd (str_eq format "csv") 1 items no_records db).0 (omega arith)
                  (import_items-HasTotal s upd (str_eq format "csv") 1 items no_records db))
                (import_items-keeps s upd (λ x. others x ≡ others db) (others-Keeps s upd db)
                  (str_eq format "csv") 1 items no_records db refl))
      ]
    ]

-- An import whose file is read as a list of records ends in a report, and then the counts add up
-- to the number of records, the log has one new row with the same counts under the key that the
-- report names, at most ten errors are shown, and users, suppliers, orders and items are as
-- before; or it ends without a report, and then the database is as before.
pub import_products-OutcomeIsRight :
    ⦃u : Unicode⦄
    → ⦃py : Python⦄ → ⦃ps : Parsers⦄
    → (user : User) (request : ImportRequest) (file : PriceFile) (items : Items) (db : Db)
    → request.file ≡ some file
    → is_choice (or_default "auto" request.format) ≡ true
    → read_file (detect_format file.name (or_default "auto" request.format)) file ≡ records items
    → OutcomeIsRight (size items) db (import_products user request db)
unfolding import_products
import_products-OutcomeIsRight user request file items db f c r =
    rw (f, c, r, import_products)
      (import_read-OutcomeIsRight user (or_default true request.update_existing) file.name
        (detect_format file.name (or_default "auto" request.format)) items db)
