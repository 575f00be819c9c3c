-- ===== src/Integrity/Links.antt =====
-- References between lists when rows are added to either, saved, or taken out.
use python_diplom.Base.{
  ap, ◌∙◌, ==_iff, ℕ, ◌≡◌, ◌≢◌, refl, Bool, true, false, not, ◌&&◌, ◌==◌, List, [], ◌∷◌, ◌++◌, any,
  keep, All, All-keep, All-zip, Bool-cases, inl, inr, arith,
}
use python_diplom.Table.{Model, replace}
use python_diplom.Table.Presence.{any-append, any-replace}
use python_diplom.Table.Unique.{Unique}
use python_diplom.Integrity.{Refers}

for_each {ℓ κ} : {A : Type ℓ} {P : A → Type κ} (xs : List A) → ((a : A) → P a) → All P xs
for_each [] h = tt
for_each (a ∷ xs) h = (h a, for_each xs h)

-- Targets are taken out by their key.
by_key :
    {B : Type 0} (pk : B → ℕ) (gone : ℕ → Bool) (k : ℕ) (targets : List B)
    → gone k ≡ false
    → any (λ b. (pk b == k) && gone (pk b)) targets ≡ false
by_key pk gone k [] h = refl
by_key pk gone k (b ∷ targets) h = elim (Bool-cases (pk b == k)) [
  | inl e ↦
      let same : gone (pk b) ≡ false = ap gone ((==_iff (pk b) k).0 e) ∙ h in
      rw (e, same) (by_key pk gone k targets h)
  | inr e ↦ rw e (by_key pk gone k targets h)
]

-- Targets are added.
pub Refers-append :
    {A B : Type 0} (key : A → ℕ) (pk : B → ℕ) (rows : List A) (targets more : List B)
    → Refers key pk rows targets
    → Refers key pk rows (targets ++ more)
Refers-append key pk [] targets more h = tt
Refers-append key pk (a ∷ rows) targets more h =
    (any-append (λ b. pk b == key a) targets more h.0, Refers-append key pk rows targets more h.1)

-- A target is saved.
pub Refers-replace :
    {A B : Type 0} ⦃m : Model B⦄ (key : A → ℕ) (rows : List A) (targets : List B) (saved : B)
    → Refers key (λ b. m.pk b) rows targets
    → Refers key (λ b. m.pk b) rows (replace saved targets)
Refers-replace key [] targets saved h = tt
Refers-replace key (a ∷ rows) targets saved h =
    (any-replace saved (key a) targets ∙ h.0, Refers-replace key rows targets saved h.1)

module _ {A B : Type 0} (key : A → ℕ) (pk : B → ℕ) where
  -- A target that is not among those taken out is still there.
  target-kept :
      (gone : B → Bool) (k : ℕ) (targets : List B)
      → any (λ b. pk b == k) targets ≡ true
      → any (λ b. (pk b == k) && gone b) targets ≡ false
      → any (λ b. pk b == k) (keep (λ b. not (gone b)) targets) ≡ true
  target-kept gone k [] there safe = there
  target-kept gone k (b ∷ targets) there safe = ground (arith, target-kept gone k targets)

  -- Rows are taken out, the targets stay.
  pub Refers-keep :
      (p : A → Bool) (rows : List A) (targets : List B)
      → Refers key pk rows targets
      → Refers key pk (keep p rows) targets
  Refers-keep p rows targets h = All-keep _ p rows h

  -- No row refers to one of the targets that are taken out.
  pub Refers-delete :
      (gone : B → Bool) (rows : List A) (targets : List B)
      → Refers key pk rows targets
      → All (λ a. any (λ b. (pk b == key a) && gone b) targets ≡ false) rows
      → Refers key pk rows (keep (λ b. not (gone b)) targets)
  Refers-delete gone [] targets h safe = tt
  Refers-delete gone (a ∷ rows) targets h safe =
      (target-kept gone (key a) targets h.0 safe.0, Refers-delete gone rows targets h.1 safe.1)

  -- Targets are taken out, and with them the rows that refer to one of them.
  pub Refers-cascade :
      (gone : B → Bool) (lost : A → Bool) (rows : List A) (targets : List B)
      → All (λ a. lost a ≡ false → any (λ b. (pk b == key a) && gone b) targets ≡ false) rows
      → Refers key pk rows targets
      → Refers key pk (keep (λ a. not (lost a)) rows) (keep (λ b. not (gone b)) targets)
  Refers-cascade gone lost [] targets safe h = tt
  Refers-cascade gone lost (a ∷ rows) targets safe h = elim (Bool-cases (lost a)) [
    | inl b ↦ rw b (Refers-cascade gone lost rows targets safe.1 h.1)
    | inr b ↦ rw b (
      target-kept gone (key a) targets h.0 (safe.0 b),
      Refers-cascade gone lost rows targets safe.1 h.1,
    )
  ]

  -- Targets are taken out by their key, and with them the rows that have such a key.
  pub Refers-by_row :
      (gone : ℕ → Bool) (lost : A → Bool) (rows : List A) (targets : List B)
      → All (λ a. lost a ≡ false → gone (key a) ≡ false) rows
      → Refers key pk rows targets
      → Refers key pk (keep (λ a. not (lost a)) rows) (keep (λ b. not (gone (pk b))) targets)
  Refers-by_row gone lost rows targets safe =
      Refers-cascade (λ b. gone (pk b)) lost rows targets
        (All-zip (λ a. lost a ≡ false → gone (key a) ≡ false)
          (λ a. lost a ≡ false → gone (key a) ≡ false)
          (λ a. lost a ≡ false → any (λ b. (pk b == key a) && gone (pk b)) targets ≡ false) rows
          (λ a f _ h. by_key pk gone (key a) targets (f h)) safe safe)

  -- Rows and targets are taken out by the same test on the key.
  pub Refers-by_key :
      (gone : ℕ → Bool) (rows : List A) (targets : List B)
      → Refers key pk rows targets
      → Refers key pk (keep (λ a. not (gone (key a))) rows) (keep (λ b. not (gone (pk b))) targets)
  Refers-by_key gone rows targets =
      Refers-by_row gone (λ a. gone (key a)) rows targets (for_each rows (λ a h. h))

  -- The rows that are taken out are those whose target is.
  pub Refers-with_targets :
      (gone : B → Bool) (rows : List A) (targets : List B)
      → Refers key pk rows targets
      → Refers key pk
          (keep (λ a. not (any (λ b. (pk b == key a) && gone b) targets)) rows)
          (keep (λ b. not (gone b)) targets)
  Refers-with_targets gone rows targets =
      Refers-cascade gone (λ a. any (λ b. (pk b == key a) && gone b) targets) rows targets
        (for_each rows (λ a h. h))

  -- No row has a key by which targets are taken out.
  pub Refers-free :
      (gone : ℕ → Bool) (rows : List A) (targets : List B)
      → All (λ a. gone (key a) ≡ false) rows
      → Refers key pk rows targets
      → Refers key pk rows (keep (λ b. not (gone (pk b))) targets)
  Refers-free gone rows targets free h =
      Refers-delete (λ b. gone (pk b)) rows targets h
        (All-zip (λ a. gone (key a) ≡ false) (λ a. gone (key a) ≡ false)
          (λ a. any (λ b. (pk b == key a) && gone (pk b)) targets ≡ false) rows
          (λ a f _. by_key pk gone (key a) targets f) free free)

pub Unique-keep :
    {A K : Type 0} (key : A → K) (p : A → Bool) (xs : List A)
    → Unique key xs
    → Unique key (keep p xs)
Unique-keep key p [] u = tt
Unique-keep key p (a ∷ xs) u = elim (Bool-cases (p a)) [
  | inl b ↦ rw b (All-keep (λ y. key a ≢ key y) p xs u.0, Unique-keep key p xs u.1)
  | inr b ↦ rw b (Unique-keep key p xs u.1)
]
