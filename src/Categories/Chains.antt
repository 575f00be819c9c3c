-- ===== src/Categories/Chains.antt =====
-- Chains of categories from one up to a root.
use python_diplom.Base.{
  ℕ, ◌≡◌, ◌≢◌, ◌≤◌, ◌<◌, refl, sym, ap, ◌∙◌, true, false, not, Bool-cases, inl, inr, none, some,
  some-injective, none-ne-some, List, [], ◌∷◌, length, keep, any, find, All, All-zip, ◌==◌, arith,
  length-keep,
}
use python_diplom.Table.{Table, has_pk, Distinct, IsWellKeyed}
use python_diplom.Models.{Category, category_model}
use python_diplom.Categories.{is_child}

abbrev pub IsStored : Table Category → Category → Type 0
IsStored t c = find (has_pk c.id) t.rows ≡ some c

-- From a category, each time to its parent, up to one that has none.
abbrev pub Chain : List Category → Type 0
Chain [] = ⊥
Chain (c ∷ []) = c.parent ≡ none
Chain (c ∷ (p ∷ rest)) = (c.parent ≡ some p.id) × Chain (p ∷ rest)

find_stored : (cs : List Category) → Distinct cs → All (λ c. find (has_pk c.id) cs ≡ some c) cs
find_stored [] d = tt
find_stored (c ∷ cs) d = (
  ground arith,
  All-zip (λ y. c.id ≢ y.id) (λ y. find (has_pk y.id) cs ≡ some y)
      (λ y. find (has_pk y.id) (c ∷ cs) ≡ some y) cs (λ y ne e. ground (arith, ne, e)) d.0
      (find_stored cs d.1),
)

pub rows-IsStored : (t : Table Category) → IsWellKeyed t → All (IsStored t) t.rows
rows-IsStored t k = find_stored t.rows k.distinct

-- Nobody on a chain is a child of its first category.
no_child :
    (k : ℕ) (c : Category) (rest : List Category)
    → Chain (c ∷ rest)
    → All (λ x. k ≢ x.id) rest
    → All (λ x. x.parent ≢ some k) (c ∷ rest)
no_child k c [] top ne = (λ e. none-ne-some (sym top ∙ e), tt)
no_child k c (p ∷ rest) chain ne =
    (λ e. ne.0 (some-injective (sym e ∙ chain.0)), no_child k p rest chain.1 ne.1)

pub is_child-parent : (k : ℕ) (c : Category) → is_child k c ≡ true → c.parent ≡ some k
is_child-parent k c h = ground arith

-- A child of the first category of a chain is not on the chain.
pub child-Distinct :
    (t : Table Category) (c d : Category) (rest : List Category)
    → Chain (c ∷ rest)
    → Distinct (c ∷ rest)
    → All (IsStored t) (c ∷ rest)
    → IsStored t d
    → d.parent ≡ some c.id
    → Distinct (d ∷ (c ∷ rest))
child-Distinct t c d rest chain distinct stored own child = (
  All-zip (λ x. x.parent ≢ some c.id) (IsStored t) (λ x. d.id ≢ x.id) (c ∷ rest)
      (λ x ne kept e.
        let same : x ≡ d =
          some-injective (sym kept ∙ ap (λ (k : ℕ). find (has_pk k) t.rows) (sym e) ∙ own) in
        ne (ap (λ (y : Category). y.parent) same ∙ child))
      (no_child c.id c rest chain distinct.0) stored,
  distinct,
)

-- How many rows are not on the path.
pub left : List Category → List Category → ℕ
left path rows = length (keep (λ r. not (any (λ x. x.id == r.id) path)) rows)

left-cons-le : (d : Category) (path rows : List Category) → left (d ∷ path) rows ≤ left path rows
unfolding left
left-cons-le d path [] = omega arith
left-cons-le d path (r ∷ rows) = ground (arith, left-cons-le d path rows)

fresh-any :
    (k : ℕ) (path : List Category) → All (λ x. k ≢ x.id) path → any (λ x. x.id == k) path ≡ false
fresh-any k [] fresh = refl
fresh-any k (x ∷ path) fresh = ground (arith, fresh.0, fresh-any k path fresh.1)

left_step :
    (d : Category) (path rows : List Category)
    → find (has_pk d.id) rows ≡ some d
    → any (λ x. x.id == d.id) path ≡ false
    → left (d ∷ path) rows < left path rows
unfolding left
left_step d path [] found fresh = absurd (none-ne-some found)
left_step d path (r ∷ rows) found fresh = elim (Bool-cases (r.id == d.id)) [
  | inl b ↦
      let e : r.id ≡ d.id = ground (arith, b) in
      rw (e, fresh) (ground (arith, left-cons-le d path rows))
  | inr b ↦ ground (arith, b, left_step d path rows (rw b at found) fresh)
]

pub left-cons-lt :
    (d : Category) (path rows : List Category)
    → find (has_pk d.id) rows ≡ some d
    → All (λ x. d.id ≢ x.id) path
    → left (d ∷ path) rows < left path rows
left-cons-lt d path rows found fresh = left_step d path rows found (fresh-any d.id path fresh)

pub left-le-length : (path rows : List Category) → left path rows ≤ length rows
unfolding left
left-le-length path rows = length-keep _ rows
