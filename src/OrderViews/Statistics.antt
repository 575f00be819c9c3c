-- ===== src/OrderViews/Statistics.antt =====
-- The figures of `statistics`.
use python_diplom.Base.{
  ℕ, zero, suc, ◌+◌, ◌≤◌, ◌≡◌, refl, ap, ◌∙◌, List, [], ◌∷◌, length, take, length-take_le, arith,
  leb, All, if◌then◌else◌, Bool-cases, inl, inr,
}
use mathlib.Core.Path.{fun_ext}
use python_diplom.Models.{Order, Status}
use python_diplom.OrderViews.{same_status, count_status, insert_newest, newest_first, compute_stats}

-- The sum of the counts of `Order.STATUS_CHOICES`.
abbrev pub all_counts : (Status → ℕ) → ℕ
all_counts f =
    f Status.pending
    + f Status.confirmed
    + f Status.processing
    + f Status.shipped
    + f Status.delivered
    + f Status.cancelled

count_status-cons :
    (o : Order) (rest : List Order) (s : Status)
    → count_status s (o ∷ rest)
      ≡ (if same_status o.status s then suc (count_status s rest) else count_status s rest)
count_status-cons o rest s = elim (Bool-cases (same_status o.status s)) [
  | inl e ↦ rw e refl
  | inr e ↦ rw e refl
]

-- One more order of status `st` raises exactly one of the counts.
all_counts-suc :
    (st : Status) (f : Status → ℕ)
    → all_counts (λ s. if same_status st s then suc (f s) else f s) ≡ suc (all_counts f)
all_counts-suc Status.pending f = omega arith
all_counts-suc Status.confirmed f = omega arith
all_counts-suc Status.processing f = omega arith
all_counts-suc Status.shipped f = omega arith
all_counts-suc Status.delivered f = omega arith
all_counts-suc Status.cancelled f = omega arith

-- The six counts of `by_status` add up to the number of orders: none is left out or counted twice.
by_status-total :
    (orders : List Order)
    → all_counts (compute_stats orders).by_status ≡ (compute_stats orders).total_orders
unfolding compute_stats
by_status-total [] = refl
by_status-total (o ∷ rest) =
    ap all_counts (fun_ext (count_status-cons o rest))
    ∙ all_counts-suc o.status (λ s. count_status s rest)
    ∙ ap suc (by_status-total rest)

-- Newest first: no order is followed by a younger one.
abbrev pub IsNewestFirst : List Order → Type 0
IsNewestFirst [] = Unit
IsNewestFirst (o ∷ rest) = All (λ p. p.created_at ≤ o.created_at) rest × IsNewestFirst rest

All-insert_newest :
    (n : ℕ) (o : Order) (xs : List Order)
    → o.created_at ≤ n
    → All (λ p. p.created_at ≤ n) xs
    → All (λ p. p.created_at ≤ n) (insert_newest o xs)
unfolding insert_newest
All-insert_newest n o [] h k = (h, tt)
All-insert_newest n o (x ∷ xs) h k = ground (arith, All-insert_newest n o xs h k.1)

All-le_trans :
    (n m : ℕ) (xs : List Order)
    → n ≤ m
    → All (λ p. p.created_at ≤ n) xs
    → All (λ p. p.created_at ≤ m) xs
All-le_trans n m [] h k = tt
All-le_trans n m (x ∷ xs) h k = (omega (arith, k.0), All-le_trans n m xs h k.1)

insert_newest-IsNewestFirst :
    (o : Order) (xs : List Order) → IsNewestFirst xs → IsNewestFirst (insert_newest o xs)
unfolding insert_newest
insert_newest-IsNewestFirst o [] h = (tt, tt)
insert_newest-IsNewestFirst o (x ∷ xs) h = elim (Bool-cases (leb x.created_at o.created_at)) [
  | inl e ↦ rw e ((ground arith, All-le_trans x.created_at o.created_at xs (ground arith) h.0), h)
  | inr e ↦
      rw e (
        All-insert_newest x.created_at o xs (ground arith) h.0,
        insert_newest-IsNewestFirst o xs h.1,
      )
]

newest_first-IsNewestFirst : (xs : List Order) → IsNewestFirst (newest_first xs)
unfolding newest_first
newest_first-IsNewestFirst [] = tt
newest_first-IsNewestFirst (x ∷ xs) =
    insert_newest-IsNewestFirst x (newest_first xs) (newest_first-IsNewestFirst xs)

All-take : (P : Order → Type 0) (n : ℕ) (xs : List Order) → All P xs → All P (take n xs)
All-take P zero xs h = tt
All-take P (suc n) [] h = tt
All-take P (suc n) (x ∷ xs) h = (h.0, All-take P n xs h.1)

take-IsNewestFirst : (n : ℕ) (xs : List Order) → IsNewestFirst xs → IsNewestFirst (take n xs)
take-IsNewestFirst zero xs h = tt
take-IsNewestFirst (suc n) [] h = tt
take-IsNewestFirst (suc n) (x ∷ xs) h =
    (All-take (λ p. p.created_at ≤ x.created_at) n xs h.0, take-IsNewestFirst n xs h.1)

-- `recent_orders` holds ten orders at most, newest first.
pub recent_orders_lem :
    (orders : List Order)
    → (length (compute_stats orders).recent_orders ≤ 10)
      × IsNewestFirst (compute_stats orders).recent_orders
unfolding compute_stats
recent_orders_lem orders = (
  length-take_le 10 (newest_first orders),
  take-IsNewestFirst 10 (newest_first orders) (newest_first-IsNewestFirst orders),
)
