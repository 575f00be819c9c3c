-- ===== src/Categories/Forests.antt =====
-- Forests of serialized categories, and which categories they mention.
use python_diplom.Base.{
  ℕ, ◌≡◌, refl, sym, Bool, true, false, ◌||◌, Bool-cases, inl, inr, List, [], ◌∷◌, any, All, ◌==◌,
  arith,
}
use python_diplom.Exn.{Result, ok, err, err-ne-ok, ok-injective, >>=-eq-ok}
use python_diplom.Models.{Category}
use python_diplom.Categories.{CategoryData, node, Forest, nil, cons, forest_of, with_children}

-- Whether a category with the key is shown somewhere in the tree.
unfoldable mutual
  pub mentions : ℕ → CategoryData → Bool
  mentions k (node c ds) = (c.id == k) || mentions_in k ds

  pub mentions_in : ℕ → Forest → Bool
  mentions_in k nil = false
  mentions_in k (cons d ds) = mentions k d || mentions_in k ds

pub with_children-ok :
    (c : Category) (r : Result Forest) (d : CategoryData)
    → with_children c r ≡ ok d
    → (ds : Forest) × (r ≡ ok ds) × (d ≡ node c ds)
with_children-ok c (ok ds) d h = (ds, refl, sym (ok-injective h))
with_children-ok c (err e) d h = absurd (err-ne-ok h)

module _ (one : Category → Result CategoryData) where
  pub forest_of-cons :
      (c : Category) (cs : List Category) (ds : Forest)
      → forest_of one (c ∷ cs) ≡ ok ds
      → (d : CategoryData) × (rest : Forest) × (one c ≡ ok d)
        × (forest_of one cs ≡ ok rest)
        × (ds ≡ cons d rest)
  unfolding forest_of
  forest_of-cons c cs ds h =
      let (d, e, h₁) = >>=-eq-ok (one c) _ h in
      let (rest, e₁, h₂) = >>=-eq-ok (forest_of one cs) _ h₁ in
      (d, rest, e, e₁, sym (ok-injective h₂))

  -- If every category is serialized, the list is.
  pub forest_of-ok :
      (cs : List Category)
      → All (λ c. (d : CategoryData) × (one c ≡ ok d)) cs
      → (ds : Forest) × (forest_of one cs ≡ ok ds)
  unfolding forest_of
  forest_of-ok [] h = (nil, refl)
  forest_of-ok (c ∷ cs) h =
      let (d, e) = h.0 in let (ds, e₁) = forest_of-ok cs h.1 in (cons d ds, rw (e, e₁) refl)

  -- What is shown in the list is shown in one of the trees.
  pub mentions_in_sound :
      (P : Category → Type 0) (Q : Type 0) (k : ℕ) (cs : List Category) (ds : Forest)
      → ((c : Category) (d : CategoryData) → P c → one c ≡ ok d → mentions k d ≡ true → Q)
      → All P cs
      → forest_of one cs ≡ ok ds
      → mentions_in k ds ≡ true
      → Q
  unfolding mentions_in forest_of
  mentions_in_sound P Q k [] ds step h e m = absurd (cc (ok-injective e))
  mentions_in_sound P Q k (c ∷ cs) ds step h e m =
      let (d, rest, e₁, e₂, e₃) = forest_of-cons c cs ds e in
      elim (Bool-cases (mentions k d)) [
        | inl b ↦ step c d h.0 e₁ b
        | inr b ↦ mentions_in_sound P Q k cs rest step h.1 e₂ (rw (e₃, b) at m)
      ]

  -- What one of the trees shows is shown in the list.
  pub mentions_in_complete :
      (k j : ℕ) (cs : List Category) (ds : Forest)
      → ((c : Category) (d : CategoryData)
          → one c ≡ ok d
          → (c.id == j) ≡ true
          → mentions k d ≡ true)
      → any (λ c. c.id == j) cs ≡ true
      → forest_of one cs ≡ ok ds
      → mentions_in k ds ≡ true
  unfolding mentions_in
  mentions_in_complete k j [] ds step h e = absurd (cc h)
  mentions_in_complete k j (c ∷ cs) ds step h e =
      let (d, rest, e₁, e₂, e₃) = forest_of-cons c cs ds e in
      elim (Bool-cases (c.id == j)) [
        | inl b ↦ rw (e₃, step c d e₁ b) refl
        | inr b ↦
            let rest_shows : mentions_in k rest ≡ true =
              mentions_in_complete k j cs rest step (rw b at h) e₂ in
            rw e₃ (ground (arith, rest_shows))
      ]

  -- A step that every tree allows, the list allows.
  pub mentions_in_step :
      (k j : ℕ) (cs : List Category) (ds : Forest)
      → ((c : Category) (d : CategoryData)
          → one c ≡ ok d
          → mentions j d ≡ true
          → mentions k d ≡ true)
      → forest_of one cs ≡ ok ds
      → mentions_in j ds ≡ true
      → mentions_in k ds ≡ true
  unfolding mentions_in forest_of
  mentions_in_step k j [] ds step e m = absurd (cc (ok-injective e))
  mentions_in_step k j (c ∷ cs) ds step e m =
      let (d, rest, e₁, e₂, e₃) = forest_of-cons c cs ds e in
      elim (Bool-cases (mentions j d)) [
        | inl b ↦ rw (e₃, step c d e₁ b) refl
        | inr b ↦
            let rest_shows : mentions_in k rest ≡ true =
              mentions_in_step k j cs rest step e₂ (rw (e₃, b) at m) in
            rw e₃ (ground (arith, rest_shows))
      ]
