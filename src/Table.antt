-- ===== src/Table.antt =====
-- A database table as Django's ORM shows it: rows with a primary key, in order of insertion, and
-- the key that the next row gets. Keys are not used again after a row is deleted.
pub mod Laws
pub mod Presence
pub mod Unique
use python_diplom.Base.{
  ℕ, suc, ◌<◌, ◌≢◌, Bool, not, ◌||◌, Option, List, [], ◌∷◌, ◌++◌, find, keep, any, All, ◌==◌,
  if◌then◌else◌,
}

-- The model classes: their rows have a field `id`.
pub record Model {ℓ} (A : Type ℓ) : Type ℓ where
  pub pk : A → ℕ

pub record Table {ℓ} (A : Type ℓ) : Type ℓ where
  pub rows : List A
  pub next_id : ℕ

module _ {ℓ} {A : Type ℓ} ⦃m : Model A⦄ where
  abbrev pub has_pk : ℕ → A → Bool
  has_pk id a = m.pk a == id

  -- `Model.objects.get(id=id)`, `none` for `DoesNotExist`
  abbrev pub get : ℕ → Table A → Option A
  get id t = find (has_pk id) t.rows

  -- `Model.objects.filter(…)`
  abbrev pub filter : (A → Bool) → Table A → List A
  filter p t = keep p t.rows

  -- `Model.objects.filter(…).exists()`
  abbrev pub exists : (A → Bool) → Table A → Bool
  exists p t = any p t.rows

  -- `Model.objects.create(…)`: the row, and the table with it
  unfoldable pub insert : (ℕ → A) → Table A → A × Table A
  insert mk t =
      (mk t.next_id, record { rows = t.rows ++ mk t.next_id ∷ []; next_id = suc t.next_id })

  -- `instance.save()` of a stored row
  abbrev pub replace : A → List A → List A
  replace a [] = []
  replace a (b ∷ bs) = (if m.pk b == m.pk a then a else b) ∷ replace a bs

  unfoldable pub update : A → Table A → Table A
  update a t = record t { rows = replace a t.rows }

  -- `queryset.filter(…).delete()`
  unfoldable pub delete : (A → Bool) → Table A → Table A
  delete p t = record t { rows = keep (λ a. not (p a)) t.rows }

  -- Every key in use is below the next one, and no two rows share a key.
  abbrev pub Distinct : List A → Type ℓ
  Distinct [] = Unit
  Distinct (a ∷ rest) = All (λ b. m.pk a ≢ m.pk b) rest × Distinct rest

  pub record IsWellKeyed (t : Table A) : Type ℓ where
    pub below : All (λ a. m.pk a < t.next_id) t.rows
    pub distinct : Distinct t.rows
