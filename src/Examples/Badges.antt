-- ===== src/Examples/Badges.antt =====
-- Examples for the theorem on the badges of the admin.
use python_diplom.Base.{ℕ, ◌<◌, ◌≤◌, ◌≡◌, ◌↔◌, refl, none, [], ◌∷◌, arith}
use python_diplom.Models.{Db, PriceUpdateLog}
use python_diplom.FileFormats.{Report}
use python_diplom.Import.Reports.{IsReport}
use python_diplom.Admin.{badge, log_badge}
use python_diplom.Admin.Badges.{log_badge-IsReport}
use python_diplom.Examples.{shop}

-- Of three records one failed.
abbrev written : PriceUpdateLog
written = record {
  id = 1;
  supplier = 5;
  file_name = "prices.json";
  records_count = 3;
  success_count = 2;
  failed_count = 1;
  notes = "bad price";
}

abbrev answered : Report
answered = record {
  message = "";
  format = "json";
  success_count = 2;
  failed_count = 1;
  total_count = 3;
  log_id = 1;
  errors = "bad price" ∷ [];
  total_errors = none;
}

abbrev logged_shop : Db
logged_shop = record shop { logs = record { rows = written ∷ []; next_id = 2 } }

abbrev one_failed : IsReport 3 shop answered logged_shop
one_failed = record {
  log = written;
  stored = refl;
  log_id = refl;
  log_success = refl;
  log_failed = refl;
  log_total = refl;
  total = refl;
  total_count = refl;
  few = omega arith;
  users = refl;
  suppliers = refl;
  orders = refl;
  items = refl;
}

log_badge-IsReport_example :
    ((log_badge written ≡ badge "#4CAF50" "Success") ↔ (◌≡◌ {A = ℕ} 1 0))
    × ((log_badge written ≡ badge "#ff9800" "Partial") ↔ (0 < 1) × (1 < 2))
    × ((log_badge written ≡ badge "#f44336" "Failed") ↔ (0 < 1) × (2 ≤ 1))
log_badge-IsReport_example = log_badge-IsReport one_failed
