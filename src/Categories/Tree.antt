-- ===== src/Categories/Tree.antt =====
-- What the serialized categories show.
use mathlib.Core.Path.{subst}
use python_diplom.Base.{
  ==_iff, ℕ, zero, suc, ◌≡◌, ◌≤◌, ◌<◌, ◌↔◌, refl, sym, ap, ◌∙◌, Bool, true, not, ◌||◌, Bool-cases,
  inl, inr, none, some, some-injective, List, [], ◌∷◌, length, keep, any, find, All, All-zip,
  All-keep, ◌==◌, is_some, arith,
}
use python_diplom.Exn.{ok, err-ne-ok}
use python_diplom.Table.{Table, has_pk, Distinct, IsWellKeyed}
use python_diplom.Models.{Category, category_model}
use python_diplom.Categories.{
  CategoryData, node, Forest, ByName, is_child, children_of, root_categories, category_data,
  serialized,
}
use python_diplom.Categories.Chains.{
  IsStored, Chain, rows-IsStored, is_child-parent, child-Distinct, left, left-cons-lt,
  left-le-length,
}
use python_diplom.Categories.Forests.{
  mentions, mentions_in, with_children-ok, forest_of-ok, mentions_in_sound, mentions_in_complete,
  mentions_in_step,
}

-- The categories that a chain of parents joins to a root.
pub data Rooted (t : Table Category) : Category → Type 0 where
  root : (c : Category) → IsStored t c → c.parent ≡ none → Rooted t c
  below : (c p : Category) → IsStored t c → c.parent ≡ some p.id → Rooted t p → Rooted t c

Rooted-IsStored : (t : Table Category) (c : Category) → Rooted t c → IsStored t c
Rooted-IsStored t c (root _ own top) = own
Rooted-IsStored t c (below _ p own up r) = own

same_id : (t : Table Category) (c e : Category) → IsStored t c → IsStored t e → c.id ≡ e.id → c ≡ e
same_id t c e own own' h =
    some-injective (sym own ∙ ap (λ (k : ℕ). find (has_pk k) t.rows) h ∙ own')

keep-test : (p : Category → Bool) (cs : List Category) → All (λ c. p c ≡ true) (keep p cs)
keep-test p [] = tt
keep-test p (c ∷ cs) = elim (Bool-cases (p c)) [
  | inl b ↦ rw b (b, keep-test p cs)
  | inr b ↦ rw b (keep-test p cs)
]

any-keep :
    (p : Category → Bool) (e : Category) (cs : List Category)
    → find (has_pk e.id) cs ≡ some e
    → p e ≡ true
    → any (λ c. c.id == e.id) (keep p cs) ≡ true
any-keep p e [] h k = absurd (cc h)
any-keep p e (c ∷ cs) h k = elim (Bool-cases (c.id == e.id)) [
  | inl b ↦ let same : c ≡ e = some-injective (rw b at h) in rw (same, k) (ground arith)
  | inr b ↦
      let rest = any-keep p e cs (rw b at h) k in
      elim (Bool-cases (p c)) [ inl q ↦ rw (q, b) rest | inr q ↦ rw q rest ]
]

module _ ⦃n : ByName⦄ (t : Table Category) where
  children-IsStored :
      (keyed : IsWellKeyed t) (k : ℕ)
      → All (λ d. IsStored t d × (d.parent ≡ some k)) (children_of t k)
  unfolding children_of
  children-IsStored keyed k = n.sorted-All _ _ (
      All-zip (IsStored t) (λ d. is_child k d ≡ true) (λ d. IsStored t d × (d.parent ≡ some k))
        (keep (is_child k) t.rows) (λ d own child. (own, is_child-parent k d child))
        (All-keep (IsStored t) (is_child k) t.rows (rows-IsStored t keyed))
        (keep-test (is_child k) t.rows))

  roots-IsStored :
      (keyed : IsWellKeyed t) → All (λ d. IsStored t d × (d.parent ≡ none)) (root_categories t)
  unfolding root_categories
  roots-IsStored keyed = n.sorted-All _ _ (
      All-zip (IsStored t) (λ d. not (is_some d.parent) ≡ true)
        (λ d. IsStored t d × (d.parent ≡ none)) (keep (λ c. not (is_some c.parent)) t.rows)
        (λ d own top. (own, ground (arith, top)))
        (All-keep (IsStored t) (λ c. not (is_some c.parent)) t.rows (rows-IsStored t keyed))
        (keep-test (λ c. not (is_some c.parent)) t.rows))

  child-listed :
      (c e : Category)
      → IsStored t e
      → e.parent ≡ some c.id
      → any (λ x. x.id == e.id) (children_of t c.id) ≡ true
  unfolding children_of
  child-listed c e own up =
      n.sorted-any (λ x. x.id == e.id) _
      ∙ any-keep (is_child c.id) e t.rows own (rw up (ground arith))

  root-listed :
      (e : Category)
      → IsStored t e
      → e.parent ≡ none
      → any (λ x. x.id == e.id) (root_categories t) ≡ true
  unfolding root_categories
  root-listed e own top =
      n.sorted-any (λ x. x.id == e.id) _
      ∙ any-keep (λ c. not (is_some c.parent)) e t.rows own (rw top refl)

  -- The serializer ends on a category that a chain joins to a root, with room for the rows that are
  -- not on the chain.
  category_data-ok :
      (keyed : IsWellKeyed t) (depth : ℕ) (c : Category) (rest : List Category)
      → Chain (c ∷ rest)
      → All (IsStored t) (c ∷ rest)
      → Distinct (c ∷ rest)
      → left (c ∷ rest) t.rows < depth
      → (d : CategoryData) × (category_data depth t c ≡ ok d)
  unfolding category_data
  category_data-ok keyed zero c rest chain stored distinct room = absurd (omega (arith, room))
  category_data-ok keyed (suc depth) c rest chain stored distinct room =
      let Child : Category → Type 0 = λ d. IsStored t d × (d.parent ≡ some c.id) in
      let (ds, e) = forest_of-ok (category_data depth t) (children_of t c.id) (
        All-zip Child Child (λ d. (x : CategoryData) × (category_data depth t d ≡ ok x)) _
          (λ d child _.
            let apart = child-Distinct t c d rest chain distinct stored child.0 child.1 in
            category_data-ok keyed depth d (c ∷ rest) (child.1, chain) (child.0, stored) apart
              (omega (arith, room, left-cons-lt d (c ∷ rest) t.rows child.0 apart.0)))
          (children-IsStored keyed c.id) (children-IsStored keyed c.id)) in
      (node c ds, rw e refl)

  own_key :
      (depth k : ℕ) (c : Category) (d : CategoryData)
      → category_data depth t c ≡ ok d
      → (c.id == k) ≡ true
      → mentions k d ≡ true
  unfolding category_data mentions
  own_key zero k c d h e = absurd (err-ne-ok h)
  own_key (suc depth) k c d h e =
      let (ds, h₁, shape) = with_children-ok c _ d h in rw (shape, e) refl

  -- Only descendants of a rooted category are shown below it.
  category_data_sound :
      (keyed : IsWellKeyed t) (depth : ℕ) (c e : Category) (d : CategoryData)
      → Rooted t c
      → category_data depth t c ≡ ok d
      → IsStored t e
      → mentions e.id d ≡ true
      → Rooted t e
  unfolding category_data mentions
  category_data_sound keyed zero c e d r h own m = absurd (err-ne-ok h)
  category_data_sound keyed (suc depth) c e d r h own m =
      let (ds, h₁, shape) = with_children-ok c _ d h in
      elim (Bool-cases (c.id == e.id)) [
        | inl b ↦ subst (Rooted t) (same_id t c e (Rooted-IsStored t c r) own (ground (arith, b))) r
        | inr b ↦
            mentions_in_sound (category_data depth t) (Rooted t) (Rooted t e) e.id
              (children_of t c.id) ds
              (λ x y r' h' m'. category_data_sound keyed depth x e y r' h' own m')
              (All-zip (λ x. IsStored t x × (x.parent ≡ some c.id))
                (λ x. IsStored t x × (x.parent ≡ some c.id)) (Rooted t) _
                (λ x child _. Rooted.below x c child.0 child.1 r) (children-IsStored keyed c.id)
                (children-IsStored keyed c.id))
              h₁ (rw (shape, b) at m)
      ]

  -- Where a category is shown, its children are.
  category_data_step :
      (depth : ℕ) (c p e : Category) (d : CategoryData)
      → IsStored t e
      → e.parent ≡ some p.id
      → category_data depth t c ≡ ok d
      → mentions p.id d ≡ true
      → mentions e.id d ≡ true
  unfolding category_data mentions
  category_data_step zero c p e d own up h m = absurd (err-ne-ok h)
  category_data_step (suc depth) c p e d own up h m =
      let (ds, h₁, shape) = with_children-ok c _ d h in
      let shown : (c.id == p.id) || mentions_in p.id ds ≡ true = rw shape at m in
      elim (Bool-cases (c.id == p.id)) [
        | inl b ↦
            let same : c.id ≡ p.id = (==_iff c.id p.id).0 b in
            let below_c : mentions_in e.id ds ≡ true =
              mentions_in_complete (category_data depth t) e.id e.id (children_of t c.id) ds
                (own_key depth e.id) (child-listed c e own (up ∙ ap some (sym same))) h₁ in
            rw shape (ground (arith, below_c))
        | inr b ↦
            let below_c : mentions_in e.id ds ≡ true =
              mentions_in_step (category_data depth t) e.id p.id (children_of t c.id) ds
                (λ x y h' m'. category_data_step depth x p e y own up h' m') h₁ (rw b at shown) in
            rw shape (ground (arith, below_c))
      ]

  Rooted-shown :
      (depth : ℕ) (e : Category) (ds : Forest)
      → serialized depth t (root_categories t) ≡ ok ds
      → Rooted t e
      → mentions_in e.id ds ≡ true
  unfolding serialized
  Rooted-shown depth e ds h (root _ own top) =
      mentions_in_complete (category_data depth t) e.id e.id (root_categories t) ds
        (own_key depth e.id) (root-listed e own top) h
  Rooted-shown depth e ds h (below _ p own up r) =
      mentions_in_step (category_data depth t) e.id p.id (root_categories t) ds
        (λ x y h' m'. category_data_step depth x p e y own up h' m') h (Rooted-shown depth p ds h r)

  -- When the recursion limit leaves room for as many categories below one another as there are, the
  -- serializer ends on the categories without a parent, also if others form a cycle; and it shows
  -- exactly the categories that a chain of parents joins to one of them.
  pub serialized_roots :
      (keyed : IsWellKeyed t) (depth : ℕ)
      → length t.rows ≤ depth
      → (ds : Forest) × (serialized depth t (root_categories t) ≡ ok ds)
        × ((c : Category) → IsStored t c → (mentions_in c.id ds ≡ true) ↔ Rooted t c)
  unfolding serialized
  serialized_roots keyed depth room =
      let Top : Category → Type 0 = λ d. IsStored t d × (d.parent ≡ none) in
      let (ds, e) = forest_of-ok (category_data depth t) (root_categories t) (
        All-zip Top Top (λ d. (x : CategoryData) × (category_data depth t d ≡ ok x)) _
          (λ d top _.
            category_data-ok keyed depth d [] top.1 (top.0, tt) (tt, tt)
              (omega (arith, room, left-cons-lt d [] t.rows top.0 tt, left-le-length [] t.rows)))
          (roots-IsStored keyed) (roots-IsStored keyed)) in
      (
        ds,
        e,
        λ c own. (
          λ m.
              mentions_in_sound (category_data depth t) (Rooted t) (Rooted t c) c.id
                (root_categories t) ds
                (λ x y r h m'. category_data_sound keyed depth x c y r h own m')
                (All-zip Top Top (Rooted t) _ (λ x top _. Rooted.root x top.0 top.1)
                  (roots-IsStored keyed) (roots-IsStored keyed))
                e m,
          Rooted-shown depth c ds e,
        ),
      )
