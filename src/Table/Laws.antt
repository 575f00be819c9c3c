-- ===== src/Table/Laws.antt =====
-- Looking up rows after an insertion or an update, and what keeps the keys in order.
use python_diplom.Base.{
  ℕ, suc, ◌<◌, ◌≡◌, ◌≢◌, refl, Bool, none, some, List, [], ◌∷◌, ◌++◌, find, All, All-append, arith,
  ◌==◌, if◌then◌else◌,
}
use python_diplom.Table.{Model, Table, has_pk, get, insert, replace, update, Distinct, IsWellKeyed}

module _ {A : Type 0} ⦃m : Model A⦄ where
  find-append_none :
      (p : A → Bool) (xs ys : List A) → find p xs ≡ none → find p (xs ++ ys) ≡ find p ys
  find-append_none p [] ys h = refl
  find-append_none p (x ∷ xs) ys h = ground (arith, find-append_none p xs ys)

  find-append_some :
      (p : A → Bool) (xs ys : List A) (a : A) → find p xs ≡ some a → find p (xs ++ ys) ≡ some a
  find-append_some p [] ys a h = ground arith
  find-append_some p (x ∷ xs) ys a h = ground (arith, find-append_some p xs ys a)

  fresh-none : (n : ℕ) (xs : List A) → All (λ a. m.pk a < n) xs → find (has_pk n) xs ≡ none
  fresh-none n [] h = refl
  fresh-none n (x ∷ xs) h = ground (arith, fresh-none n xs h.1)

  -- The row that was inserted is found under its key.
  pub get-insert_self :
      (mk : ℕ → A) (t : Table A)
      → ((n : ℕ) → m.pk (mk n) ≡ n)
      → IsWellKeyed t
      → get t.next_id (insert mk t).1 ≡ some (mk t.next_id)
  unfolding insert
  get-insert_self mk t keyed w =
      rw
        (find-append_none (has_pk t.next_id) t.rows (mk t.next_id ∷ [])
          (fresh-none t.next_id t.rows w.below))
        (ground (arith, keyed t.next_id))

  -- A row that was stored is still found.
  pub get-insert_old :
      (mk : ℕ → A) (t : Table A) (id : ℕ) (a : A)
      → get id t ≡ some a
      → get id (insert mk t).1 ≡ some a
  unfolding insert
  get-insert_old mk t id a h = find-append_some (has_pk id) t.rows (mk t.next_id ∷ []) a h

  Distinct-append :
      (xs : List A) (a : A) → Distinct xs → All (λ b. m.pk b < m.pk a) xs → Distinct (xs ++ a ∷ [])
  Distinct-append [] a d h = (tt, tt)
  Distinct-append (x ∷ xs) a d h = (
    All-append (λ b. m.pk x ≢ m.pk b) xs (a ∷ []) d.0 (λ e. omega (arith, h.0), tt),
    Distinct-append xs a d.1 h.1,
  )

  All-mono : (n k : ℕ) (xs : List A) → n < k → All (λ a. m.pk a < n) xs → All (λ a. m.pk a < k) xs
  All-mono n k [] l h = tt
  All-mono n k (x ∷ xs) l h = (omega (arith, h.0), All-mono n k xs l h.1)

  pub insert-IsWellKeyed :
      (mk : ℕ → A) (t : Table A)
      → ((n : ℕ) → m.pk (mk n) ≡ n)
      → IsWellKeyed t
      → IsWellKeyed (insert mk t).1
  unfolding insert
  insert-IsWellKeyed mk t keyed w = record {
    below =
        All-append (λ a. m.pk a < suc t.next_id) t.rows (mk t.next_id ∷ [])
          (All-mono t.next_id (suc t.next_id) t.rows (omega arith) w.below)
          (omega (arith, keyed t.next_id), tt);
    distinct = Distinct-append t.rows (mk t.next_id) w.distinct (rw (keyed t.next_id) w.below);
  }

  -- Saving a row changes what is found under its key, if a row is stored there, and nothing else.
  pub get-replace_self :
      (a b : A) (xs : List A)
      → find (has_pk (m.pk a)) xs ≡ some b
      → find (has_pk (m.pk a)) (replace a xs) ≡ some a
  get-replace_self a b [] h = ground arith
  get-replace_self a b (x ∷ xs) h = ground (arith, get-replace_self a b xs)

  pub get-replace_ne :
      (a : A) (id : ℕ) (xs : List A)
      → id ≢ m.pk a
      → find (has_pk id) (replace a xs) ≡ find (has_pk id) xs
  get-replace_ne a id [] h = refl
  get-replace_ne a id (x ∷ xs) h = ground (arith, get-replace_ne a id xs h)

  pk-replaced : (a x : A) → m.pk (if m.pk x == m.pk a then a else x) ≡ m.pk x
  pk-replaced a x = ground arith

  All-replace :
      (P : ℕ → Type 0) (a : A) (xs : List A)
      → All (λ b. P (m.pk b)) xs
      → All (λ b. P (m.pk b)) (replace a xs)
  All-replace P a [] h = tt
  All-replace P a (x ∷ xs) h = (rw (pk-replaced a x) h.0, All-replace P a xs h.1)

  replace-Distinct : (a : A) (xs : List A) → Distinct xs → Distinct (replace a xs)
  replace-Distinct a [] d = tt
  replace-Distinct a (x ∷ xs) d =
      (rw (pk-replaced a x) (All-replace (λ k. m.pk x ≢ k) a xs d.0), replace-Distinct a xs d.1)

  pub update-IsWellKeyed : (a : A) (t : Table A) → IsWellKeyed t → IsWellKeyed (update a t)
  unfolding update
  update-IsWellKeyed a t w = record {
    below = All-replace (λ k. k < t.next_id) a t.rows w.below;
    distinct = replace-Distinct a t.rows w.distinct;
  }

  replace-append : (a : A) (xs ys : List A) → replace a (xs ++ ys) ≡ replace a xs ++ replace a ys
  replace-append a [] ys = refl
  replace-append a (x ∷ xs) ys = rw (replace-append a xs ys)

  replace_absent :
      (a : A) (n : ℕ) (xs : List A) → m.pk a ≡ n → All (λ b. m.pk b < n) xs → replace a xs ≡ xs
  replace_absent a n [] e h = refl
  replace_absent a n (x ∷ xs) e h = ground (arith, replace_absent a n xs e h.1)

  -- A row that is saved again after its insertion is the last row of the table.
  pub rows-update-insert :
      (mk : ℕ → A) (a : A) (t : Table A)
      → m.pk (mk t.next_id) ≡ t.next_id
      → m.pk a ≡ t.next_id
      → IsWellKeyed t
      → (update a (insert mk t).1).rows ≡ t.rows ++ a ∷ []
  unfolding insert update
  rows-update-insert mk a t e e' w =
      rw (replace-append a t.rows (mk t.next_id ∷ []), replace_absent a t.next_id t.rows e' w.below)
        (ground arith)
