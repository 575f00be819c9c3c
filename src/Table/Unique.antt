-- ===== src/Table/Unique.antt =====
-- Rows that no two share a value of: what a unique column or a `unique_together` asks for, and why
-- `get_or_create` and `update_or_create` keep it.
use python_diplom.Base.{
  some-injective, All-zip, ℕ, ◌≡◌, ◌≢◌, refl, sym, ap, ◌∙◌, Bool, true, Bool-cases, inl, inr, none,
  some, List, [], ◌∷◌, ◌++◌, find, All, All-append, arith, ◌==◌, if◌then◌else◌,
}
use python_diplom.Table.{has_pk, Model, Table, insert, replace, update, Distinct, IsWellKeyed}
use mathlib.Core.Path.{subst}
use python_diplom.Table.Laws.{insert-IsWellKeyed, update-IsWellKeyed}

module _ {A K : Type 0} (key : A → K) where
  abbrev pub Unique : List A → Type 0
  Unique [] = Unit
  Unique (x ∷ xs) = All (λ y. key x ≢ key y) xs × Unique xs

  pub Unique-append :
      (xs : List A) (a : A) → Unique xs → All (λ y. key y ≢ key a) xs → Unique (xs ++ a ∷ [])
  Unique-append [] a u h = (tt, tt)
  Unique-append (x ∷ xs) a u h =
      (All-append (λ y. key x ≢ key y) xs (a ∷ []) u.0 (h.0, tt), Unique-append xs a u.1 h.1)

  -- A search that finds nothing: no row has the value that the test looks for.
  find-none-All :
      (test : A → Bool) (k : K) (xs : List A)
      → ((a : A) → key a ≡ k → test a ≡ true)
      → find test xs ≡ none
      → All (λ y. key y ≢ k) xs
  find-none-All test k [] found h = tt
  find-none-All test k (x ∷ xs) found h = elim (Bool-cases (test x)) [
    | inl b ↦ absurd (ground (arith, b))
    | inr b ↦ (λ e. ground (arith, found x e), find-none-All test k xs found (rw b at h))
  ]

module _ {A : Type 0} ⦃m : Model A⦄ where
  find-holds :
      (P : A → Type 0) (test : A → Bool) (xs : List A) (old : A)
      → find test xs ≡ some old
      → All P xs
      → P old
  find-holds P test [] old h all = absurd (ground arith)
  find-holds P test (x ∷ xs) old h all = elim (Bool-cases (test x)) [
    | inl b ↦ subst P (some-injective (rw b at h)) all.0
    | inr b ↦ find-holds P test xs old (rw b at h) all.1
  ]

  -- Keys tell rows apart.
  same_pk :
      (test : A → Bool) (xs : List A) (old : A)
      → find test xs ≡ some old
      → Distinct xs
      → All (λ b. m.pk b ≡ m.pk old → b ≡ old) xs
  same_pk test [] old h d = tt
  same_pk test (x ∷ xs) old h d = elim (Bool-cases (test x)) [
    | inl b ↦
        let e : x ≡ old = some-injective (rw b at h) in
        (
          λ _. e,
          All-zip (λ y. m.pk x ≢ m.pk y) (λ y. m.pk x ≢ m.pk y) (λ y. m.pk y ≡ m.pk old → y ≡ old)
              xs (λ y ne _ p. absurd (ne (ap m.pk e ∙ sym p))) d.0 d.0,
        )
    | inr b ↦ (
      λ p. absurd (find-holds (λ y. m.pk x ≢ m.pk y) test xs old (rw b at h) d.0 p),
      same_pk test xs old (rw b at h) d.1,
    )
  ]

  -- A row that a search found is also found under its key, though the row there may be another one.
  pub find_by_pk :
      (test : A → Bool) (xs : List A) (old : A)
      → find test xs ≡ some old
      → (a : A) × (find (has_pk (m.pk old)) xs ≡ some a)
  find_by_pk test [] old h = absurd (ground arith)
  find_by_pk test (x ∷ xs) old h = elim (Bool-cases (m.pk x == m.pk old)) [
    | inl b ↦ (x, ground (arith, b))
    | inr b ↦ elim (Bool-cases (test x)) [
      | inl c ↦ absurd (ground (arith, b, c))
      | inr c ↦ (let (a, e) = find_by_pk test xs old (rw c at h) in (a, ground (arith, b, e)))
    ]
  ]

  find-same :
      (k : ℕ) (xs : List A) (a b : A)
      → find (has_pk k) xs ≡ some b
      → All (λ c. m.pk c ≡ k → c ≡ a) xs
      → find (has_pk k) xs ≡ some a
  find-same k [] a b h same = absurd (ground arith)
  find-same k (x ∷ xs) a b h same = elim (Bool-cases (m.pk x == k)) [
    | inl c ↦ rw c (ap some (same.0 (ground (arith, c))))
    | inr c ↦ rw c (find-same k xs a b (rw c at h) same.1)
  ]

  -- With distinct keys it is that row.
  pub find_own_pk :
      (test : A → Bool) (xs : List A) (old : A)
      → find test xs ≡ some old
      → Distinct xs
      → find (has_pk (m.pk old)) xs ≡ some old
  find_own_pk test xs old h d =
      let (b, e) = find_by_pk test xs old h in
      find-same (m.pk old) xs old b e (same_pk test xs old h d)

module _ {A K : Type 0} ⦃m : Model A⦄ (key : A → K) where
  key-replaced :
      (a x : A)
      → (m.pk x ≡ m.pk a → key x ≡ key a)
      → key (if m.pk x == m.pk a then a else x) ≡ key x
  key-replaced a x h = elim (Bool-cases (m.pk x == m.pk a)) [
    | inl b ↦ rw b (sym (h (ground (arith, b))))
    | inr b ↦ rw b refl
  ]

  All-replace :
      (P : K → Type 0) (a : A) (xs : List A)
      → All (λ b. m.pk b ≡ m.pk a → key b ≡ key a) xs
      → All (λ b. P (key b)) xs
      → All (λ b. P (key b)) (replace a xs)
  All-replace P a [] same h = tt
  All-replace P a (x ∷ xs) same h =
      (rw (key-replaced a x same.0) h.0, All-replace P a xs same.1 h.1)

  replace-Unique :
      (a : A) (xs : List A)
      → All (λ b. m.pk b ≡ m.pk a → key b ≡ key a) xs
      → Unique key xs
      → Unique key (replace a xs)
  replace-Unique a [] same u = tt
  replace-Unique a (x ∷ xs) same u = (
    rw (key-replaced a x same.0) (All-replace (λ k. key x ≢ k) a xs same.1 u.0),
    replace-Unique a xs same.1 u.1,
  )

  -- `create` after a search that found nothing
  insert-Unique :
      (mk : ℕ → A) (test : A → Bool) (t : Table A)
      → ((a : A) → key a ≡ key (mk t.next_id) → test a ≡ true)
      → find test t.rows ≡ none
      → Unique key t.rows
      → Unique key (insert mk t).1.rows
  unfolding insert
  insert-Unique mk test t found h u =
      Unique-append key t.rows (mk t.next_id) u
        (find-none-All key test (key (mk t.next_id)) t.rows found h)

  -- `save` of a row that a search found, its value unchanged
  update-Unique :
      (a old : A) (test : A → Bool) (t : Table A)
      → find test t.rows ≡ some old
      → m.pk a ≡ m.pk old
      → key a ≡ key old
      → IsWellKeyed t
      → Unique key t.rows
      → Unique key (update a t).rows
  unfolding update
  update-Unique a old test t h e e' w u =
      replace-Unique a t.rows
        (All-zip (λ b. m.pk b ≡ m.pk old → b ≡ old) (λ b. m.pk b ≡ m.pk old → b ≡ old)
          (λ b. m.pk b ≡ m.pk a → key b ≡ key a) t.rows
          (λ b same _ p. ap key (same (p ∙ e)) ∙ sym e') (same_pk test t.rows old h w.distinct)
          (same_pk test t.rows old h w.distinct))
        u

-- A well-keyed table in which no two rows share the value of a unique column.
pub record HasUnique {A K : Type 0} ⦃m : Model A⦄ (key : A → K) (t : Table A) : Type 0 where
  pub keyed : IsWellKeyed t
  pub unique : Unique key t.rows

module _ {A K : Type 0} ⦃m : Model A⦄ (key : A → K) (test : A → Bool) (t : Table A) where
  pub insert-HasUnique :
      (mk : ℕ → A)
      → ((n : ℕ) → m.pk (mk n) ≡ n)
      → ((a : A) → key a ≡ key (mk t.next_id) → test a ≡ true)
      → find test t.rows ≡ none
      → HasUnique key t
      → HasUnique key (insert mk t).1
  insert-HasUnique mk keyed found h q = record {
    keyed = insert-IsWellKeyed mk t keyed q.keyed;
    unique = insert-Unique key mk test t found h q.unique;
  }

  pub update-HasUnique :
      (a old : A)
      → find test t.rows ≡ some old
      → m.pk a ≡ m.pk old
      → key a ≡ key old
      → HasUnique key t
      → HasUnique key (update a t)
  update-HasUnique a old h e e' q = record {
    keyed = update-IsWellKeyed a t q.keyed;
    unique = update-Unique key a old test t h e e' q.keyed q.unique;
  }
