-- ===== src/Table/Presence.antt =====
-- Which keys are in a table after its rows have been written.
use mathlib.Core.Path.{subst}
use python_diplom.Base.{
  refl, Bool-cases, inl, inr, All, some-injective, ℕ, ◌≡◌, Bool, true, some, List, [], ◌∷◌, ◌++◌,
  any, find, arith, ◌==◌,
}
use python_diplom.Table.{Model, replace}

module _ {ℓ κ} {A : Type ℓ} where
  -- A row that is found has what every row has.
  pub All-find :
      (P : A → Type κ) (p : A → Bool) (xs : List A) (a : A) → All P xs → find p xs ≡ some a → P a
  All-find P p [] a h e = absurd (ground arith)
  All-find P p (x ∷ xs) a h e = elim (Bool-cases (p x)) [
    | inl t ↦ subst P (some-injective (ground (arith, e, t))) h.0
    | inr t ↦ All-find P p xs a h.1 (ground arith)
  ]

  -- What every row has, and the saved one too, every row has afterwards.
  pub All-replaced :
      ⦃m : Model A⦄ → (P : A → Type κ) (a : A) (xs : List A) → P a → All P xs → All P (replace a xs)
  All-replaced ⦃m⦄ P a [] h k = tt
  All-replaced ⦃m⦄ P a (x ∷ xs) h k = elim (Bool-cases (m.pk x == m.pk a)) [
    | inl e ↦ rw e (h, All-replaced P a xs h k.1)
    | inr e ↦ rw e (k.0, All-replaced P a xs h k.1)
  ]

module _ {ℓ} {A : Type ℓ} where
  pub any-append : (p : A → Bool) (xs ys : List A) → any p xs ≡ true → any p (xs ++ ys) ≡ true
  any-append p [] ys h = absurd (ground arith)
  any-append p (x ∷ xs) ys h = ground (arith, any-append p xs ys)

  pub any-append_last :
      (p : A → Bool) (xs : List A) (y : A) → p y ≡ true → any p (xs ++ y ∷ []) ≡ true
  any-append_last p [] y h = ground arith
  any-append_last p (x ∷ xs) y h = ground (arith, any-append_last p xs y h)

  module _ ⦃m : Model A⦄ where
    -- A row that is found is there under its key.
    pub find-any :
        (p : A → Bool) (xs : List A) (a : A)
        → find p xs ≡ some a
        → any (λ b. m.pk b == m.pk a) xs ≡ true
    find-any p [] a h = absurd (ground arith)
    find-any p (x ∷ xs) a h = ground (arith, find-any p xs a)

    -- Saving a row changes no key.
    pub any-replace :
        (a : A) (k : ℕ) (rows : List A)
        → any (λ b. m.pk b == k) (replace a rows) ≡ any (λ b. m.pk b == k) rows
    any-replace a k [] = refl
    any-replace a k (x ∷ rows) = ground (arith, any-replace a k rows)
