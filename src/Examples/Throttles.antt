-- ===== src/Examples/Throttles.antt =====
-- Examples for the theorem on throttles.
use Prim.Native.String
use python_diplom.Base.{
  ℕ, ◌≤◌, ◌<◌, ◌≡◌, refl, String, Bool, true, false, Option, none, some, List, [], ◌∷◌, length, ltb,
  str_eq, eq_refl, if◌then◌else◌, arith,
}
use python_diplom.Text.{show}
use python_diplom.Throttling.{
  Caller, member, guest, Throttle, Framework, within, ident, cache_key, scope,
}
use python_diplom.Throttling.Bounds.{run, product_list_limit}
use python_diplom.Examples.{boris}

abbrev Times : Type 0
Times = String → List ℕ

abbrev remember : String → List ℕ → Times → Times
remember key times s j = if str_eq j key then times else s j

abbrev allow : String → ℕ → ℕ → ℕ → Times → Bool × Times
allow key num duration now s =
    if ltb (length (within duration now (s key))) num
    then (true, remember key (now ∷ within duration now (s key)) s)
    else (false, s)

allow_grants :
    (key : String) (num duration now : ℕ) (s : Times)
    → length (within duration now (s key)) < num
    → ((allow key num duration now s).0 ≡ true)
      × ((allow key num duration now s).1 key ≡ now ∷ within duration now (s key))
allow_grants key num duration now s h =
    let room : ltb (length (within duration now (s key))) num ≡ true = ground (arith, h) in
    rw room (refl, rw (eq_refl key) refl)

allow_refuses :
    (key : String) (num duration now : ℕ) (s : Times)
    → num ≤ length (within duration now (s key))
    → ((allow key num duration now s).0 ≡ false) × ((allow key num duration now s).1 key ≡ s key)
allow_refuses key num duration now s h =
    let full : ltb (length (within duration now (s key))) num ≡ false = ground (arith, h) in
    rw full (refl, refl)

abbrev anon_only : Caller → Option String
anon_only (member u) = none
anon_only (guest address) = some address

abbrev framework : Framework
framework = record {
  format_key = λ scope who. String.◌++◌ scope who;
  anon_key = λ scope caller. anon_only caller;
  user_key = λ scope caller. some (String.◌++◌ scope (ident caller));
  State = Times;
  history = λ key s. s key;
  allow = allow;
  grants = allow_grants;
  refuses = allow_refuses;
}

boris_keyed : cache_key framework Throttle.product_list (member boris) ≡ some "product_list2"
unfolding cache_key scope show
boris_keyed = refl

-- Boris, a supplier, asks three times.
product_list_limit_example :
    length (
      within 60 30
        (run framework Throttle.product_list (member boris) (10 ∷ 10 ∷ 20 ∷ []) [] (λ key. [])))
    ≤ 120
product_list_limit_example =
    product_list_limit framework boris "product_list2" 30 (10 ∷ 10 ∷ 20 ∷ []) (λ key. [])
      boris_keyed (omega arith) refl (omega arith)
