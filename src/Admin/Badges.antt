-- ===== src/Admin/Badges.antt =====
-- What the badge of an import says.
use python_diplom.Base.{ℕ, ◌<◌, ◌≤◌, ◌≡◌, ◌↔◌, eq_iff, arith}
use python_diplom.Models.{Db}
use python_diplom.FileFormats.{Report}
use python_diplom.Import.Reports.{IsReport}
use python_diplom.Admin.{badge, log_badge}

-- The badge of the log that an import with a report has written says `Success` exactly if no record
-- failed, `Partial` exactly if some failed and more were stored, and `Failed` exactly if some failed and
-- no more were stored.
pub log_badge-IsReport :
    {n : ℕ} {before after : Db} {r : Report} (i : IsReport n before r after)
    → ((log_badge i.log ≡ badge "#4CAF50" "Success") ↔ (r.failed_count ≡ 0))
      × ((log_badge i.log ≡ badge "#ff9800" "Partial")
          ↔ (0 < r.failed_count) × (r.failed_count < r.success_count))
      × ((log_badge i.log ≡ badge "#f44336" "Failed")
          ↔ (0 < r.failed_count) × (r.success_count ≤ r.failed_count))
unfolding log_badge
log_badge-IsReport i = ground (
  arith,
  eq_iff "Success" "Partial",
  eq_iff "Success" "Failed",
  eq_iff "Partial" "Failed",
  i.log_total,
  i.log_failed,
  i.total,
)
