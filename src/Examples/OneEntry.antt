-- ===== src/Examples/OneEntry.antt =====
-- A cache that holds one entry at most, as a concrete backend of the cache.
use Prim.Native.String.{[], ◌∷◌}
use Prim.Native.String
use Prim.Native.String.append
use mathlib.Core.Path.{subst}
use python_diplom.Base.{
  String, ◌≡◌, ◌≢◌, refl, ap, true, Option, none, some, List, All, inl, inr, Bool-cases, arith,
  str_eq, eq_iff, if◌then◌else◌,
}
use python_diplom.Exn.{ok-injective, ok}
use python_diplom.Text.{drop_first}
use python_diplom.Cache.{Backend, around}
use python_diplom.Text.Split.{contains}
use python_diplom.Cache.Stale.{IsRedis}

pub drop_last : String → String
drop_last [] = []
drop_last (c ∷ []) = []
drop_last (c ∷ (d ∷ s)) = c ∷ drop_last (d ∷ s)

drop_last-append : (w : String) → drop_last (String.◌++◌ w "*") ≡ w
unfolding drop_last
drop_last-append [] = refl
drop_last-append (c ∷ []) = rw (append.cons c [] "*") refl
drop_last-append (c ∷ (d ∷ w)) =
    rw (append.cons c (d ∷ w) "*", append.cons d w "*")
      (ap (λ s. c ∷ s) (rw (append.cons d w "*") at (drop_last-append (d ∷ w))))

-- The word between the two stars.
abbrev pub inner : String → String
inner p = drop_last (drop_first p)

inner-around : (w : String) → inner (around w) ≡ w
inner-around w =
    rw (append.cons "*" [] (String.◌++◌ w "*"), append.nil (String.◌++◌ w "*")) (drop_last-append w)

module _ {V : Type 0} where
  abbrev pub get_one : String → Option (String × V) → Option V
  get_one k none = none
  get_one k (some (j, v)) = if str_eq k j then some v else none

  abbrev pub delete_one : String → Option (String × V) → Option (String × V)
  delete_one k none = none
  delete_one k (some (j, v)) = if str_eq k j then none else some (j, v)

  abbrev pub keys_one : String → Option (String × V) → List String
  keys_one p none = List.[]
  keys_one p (some (j, v)) = if contains (inner p) j then List.◌∷◌ j List.[] else List.[]

  abbrev pub one_entry : Backend V
  one_entry = record {
    State = Option (String × V);
    get = λ k s. ok (get_one k s);
    set = λ k v timeout s. (ok tt, some (k, v));
    delete = λ k s. (ok tt, delete_one k s);
    keys = λ p s. ok (keys_one p s);
    clear = λ s. (ok tt, none);
  }

  keys_one-contain :
      (w p : String) (s : Option (String × V))
      → inner p ≡ w
      → All (λ k. contains w k ≡ true) (keys_one p s)
  keys_one-contain w p none e = tt
  keys_one-contain w p (some (j, v)) e = elim (Bool-cases (contains (inner p) j)) [
    | inl c ↦ rw c (rw e at c, tt)
    | inr c ↦ rw c tt
  ]

  get_one-delete_ne :
      (k j : String) (s : Option (String × V)) → k ≢ j → get_one k (delete_one j s) ≡ get_one k s
  get_one-delete_ne k j none ne = refl
  get_one-delete_ne k j (some (i, v)) ne = ground (arith, eq_iff k i, eq_iff j i)

  pub one_entry-IsRedis : IsRedis one_entry
  one_entry-IsRedis = record {
    keys-contain = λ w s ks plain h.
        subst (λ l. All (λ k. contains w k ≡ true) l) (ok-injective h)
          (keys_one-contain w (around w) s (inner-around w));
    get-delete_ne = λ k j s ne. ap ok (get_one-delete_ne k j s ne);
  }
