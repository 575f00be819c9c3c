-- ===== src/Throttling/Bounds.antt =====
-- How many requests a throttle lets through.
use python_diplom.Throttling.{
  rate, member, Caller, Throttle, Framework, within, limit_of, cache_key, allow_request,
}
use python_diplom.Models.{User, is_supplier}
use mathlib.Core.Path.{subst}
use python_diplom.Base.{
  ℕ, ◌+◌, ◌≤◌, ◌<◌, ◌≡◌, refl, sym, String, Bool-cases, inl, inr, some, List, [], ◌∷◌, length,
  length-keep, ltb, All, if◌then◌else◌, arith, ltb→lt,
}

-- The times are given in order, none before `start`.
abbrev pub InOrder : ℕ → List ℕ → Type 0
InOrder start [] = Unit
InOrder start (t ∷ ts) = (start ≤ t) × InOrder t ts

-- Only what was recent is recent later.
within-within :
    (d now later : ℕ) (times : List ℕ)
    → now ≤ later
    → within d later (within d now times) ≡ within d later times
within-within d now later [] h = refl
within-within d now later (t ∷ times) h = ground (arith, within-within d now later times h)

module _ (f : Framework) (throttle : Throttle) (caller : Caller) where
  -- Requests at the given times, with the times of those let through so far, newest first.
  pub run : List ℕ → List ℕ → f.State → List ℕ
  run [] granted s = granted
  run (now ∷ rest) granted s =
      let (good, s') = allow_request f throttle caller now s in
      run rest (if good then now ∷ granted else granted) s'

  -- What the framework remembers under a key agrees with the requests that were let through.
  record Agrees (d num last : ℕ) (granted history : List ℕ) : Type 0 where
    few : length history ≤ num
    recent : (t : ℕ) → last ≤ t → within d t granted ≡ within d t history

  Agrees-grant :
      (d num last now : ℕ) (granted history : List ℕ)
      → last ≤ now
      → length (within d now history) < num
      → Agrees d num last granted history
      → Agrees d num now (now ∷ granted) (now ∷ within d now history)
  Agrees-grant d num last now granted history le room a = record {
    few = omega (arith, room);
    recent = λ t h. ground (arith, a.recent t (omega arith), within-within d now t history h);
  }

  Agrees-later :
      (d num last now : ℕ) (granted history : List ℕ)
      → last ≤ now
      → Agrees d num last granted history
      → Agrees d num now granted history
  Agrees-later d num last now granted history le a = record {
    few = a.few;
    recent = λ t h. a.recent t (omega arith);
  }

  module _ (key : String) (keyed : cache_key f throttle caller ≡ some key) where
    -- what the limits of the caller are
    num : ℕ
    num = (limit_of throttle caller).0

    duration : ℕ
    duration = (limit_of throttle caller).1

    allowed :
        (now : ℕ) (s : f.State)
        → allow_request f throttle caller now s ≡ f.allow key num duration now s
    unfolding allow_request num duration
    allowed now s = rw (keyed, allow_request) refl

    run_bound :
        (last now : ℕ) (times granted : List ℕ) (s : f.State)
        → InOrder last times
        → Agrees duration num last granted (f.history key s)
        → All (λ t. t ≤ now) times
        → last ≤ now
        → length (within duration now (run times granted s)) ≤ num
    unfolding run
    run_bound last now [] granted s order a before le =
        rw (a.recent now le)
          (omega (arith, a.few, length-keep (λ t. ltb now (t + duration)) (f.history key s)))
    run_bound last now (t ∷ times) granted s order a before le =
        let h = f.history key s in
        let s' = (f.allow key num duration t s).1 in
        elim (Bool-cases (ltb (length (within duration t h)) num)) [
          | inl b ↦
              let (good, kept) = f.grants key num duration t s (ltb→lt _ _ b) in
              rw (allowed t s, good)
                (run_bound t now times (t ∷ granted) s' order.1
                  (subst (Agrees duration num t (t ∷ granted)) (sym kept)
                    (Agrees-grant duration num last t granted h order.0 (ltb→lt _ _ b) a))
                  before.1 before.0)
          | inr b ↦
              let (bad, kept) = f.refuses key num duration t s (ground (arith, b)) in
              rw (allowed t s, bad)
                (run_bound t now times granted s' order.1
                  (subst (Agrees duration num t granted) (sym kept)
                    (Agrees-later duration num last t granted h order.0 a))
                  before.1 before.0)
        ]

    run_le_limit :
        (now : ℕ) (times : List ℕ) (s : f.State)
        → InOrder 0 times
        → f.history key s ≡ []
        → All (λ t. t ≤ now) times
        → length (within (limit_of throttle caller).1 now (run times [] s))
          ≤ (limit_of throttle caller).0
    unfolding num duration
    run_le_limit now times s order empty before =
        run_bound 0 now times [] s order
          (rw empty (record { few = omega arith; recent = λ t h. refl })) before (omega arith)

-- The requests of a user to the views of products are throttled by the key of the user, which the
-- framework gives. Of those given in the order of their times, beginning with nothing remembered, at
-- most 120 of a supplier and at most 60 of another user are let through in the minute before any
-- later time.
pub product_list_limit :
    (f : Framework) (user : User) (key : String) (now : ℕ) (times : List ℕ) (s : f.State)
    → cache_key f Throttle.product_list (member user) ≡ some key
    → InOrder 0 times
    → f.history key s ≡ []
    → All (λ t. t ≤ now) times
    → length (within 60 now (run f Throttle.product_list (member user) times [] s))
      ≤ (if is_supplier user.user_type then 120 else 60)
unfolding limit_of rate
product_list_limit f user key now times s keyed order empty before =
    let bound =
      run_le_limit f Throttle.product_list (member user) key keyed now times s order empty before in
    elim (Bool-cases (is_supplier user.user_type)) [
      | inl b ↦ rw b (rw (limit_of, b) at bound)
      | inr b ↦ rw b (rw (limit_of, b) at bound)
    ]
