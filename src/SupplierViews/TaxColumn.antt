-- ===== src/SupplierViews/TaxColumn.antt =====
-- Which tax numbers the generic edit of a supplier stores.
use Prim.Native.String.{[], ◌∷◌}
use python_diplom.Base.{
  ℕ, zero, suc, ◌≤◌, String, Bool, true, false, not, ◌&&◌, none, some, any, str_eq, ◌==◌, leb,
  is_some, ◌≡◌, ◌≢◌, inl, inr, refl, ap, ◌∙◌, arith,
}
use python_diplom.Exn.{ok, Result-cases}
use python_diplom.Text.{Unicode, len, is_empty, all_chars}
use python_diplom.Table.{get, update}
use python_diplom.Table.Laws.{get-replace_self}
use python_diplom.Models.{Db, User, Supplier, user_model, supplier_model}
use python_diplom.Accounts.{Django, UserView, user_data}
use python_diplom.TaxNumber.{validate_tax_number}
use python_diplom.TaxNumber.Acceptance.{accepts_iff, IsInn-length, strip_separators-digits}
use python_diplom.SupplierViews.{
  SupplierPatch, patch_supplier, tax_number_refused, matches_column, digits_first, shown,
  supplier_data, reply,
}

-- the body `tax_number=…`
abbrev pub renumber : String → SupplierPatch
renumber t = record {
  company_name = none;
  contact_person = none;
  phone = none;
  email = none;
  address = none;
  tax_number = some t;
  is_active = none;
}

user_data-ok :
    ⦃d : Django⦄
    → (build : String → String) (user : User)
    → (v : UserView) × (user_data (some build) user ≡ ok v)
unfolding user_data
user_data-ok build user = elim (Result-cases (user_data (some build) user)) [
  | inl (v, e) ↦ (v, e)
  | inr (e, h) ↦ absurd (ground (arith, h))
]

module _ ⦃u : Unicode⦄ where
  -- Digits that `int` reads, nothing else.
  abbrev pub is_decimal : String → Bool
  is_decimal s = all_chars (λ c. u.is_digit c && is_some (u.digit_value c)) s

  is_decimal-digits : (s : String) → is_decimal s ≡ true → all_chars u.is_digit s ≡ true
  is_decimal-digits [] h = refl
  is_decimal-digits (c ∷ s) h = ground (arith, is_decimal-digits s)

  is_decimal-first :
      (n : ℕ) (s : String) → is_decimal s ≡ true → n ≤ len s → digits_first n s ≡ true
  is_decimal-first zero s h le = refl
  is_decimal-first (suc n) [] h le = absurd (omega (arith, le))
  is_decimal-first (suc n) (c ∷ s) h le = ground (arith, is_decimal-first n s)

  not_empty : (t : String) → len t ≡ 11 → is_empty t ≡ false
  not_empty [] n = absurd (omega (arith, n))
  not_empty (c ∷ t) n = refl

  eleven_refused : (t r : String) → is_decimal t ≡ true → len t ≡ 11 → validate_tax_number t ≢ ok r
  eleven_refused t r h n e =
      let (same, inn) = (accepts_iff t r (not_empty t n)).0 e in
      let length : len r ≡ 11 =
        ap len (same ∙ strip_separators-digits t (is_decimal-digits t h)) ∙ n in
      elim (IsInn-length r inn) [
        | inl p ↦ absurd (omega (arith, length, p))
        | inr p ↦ absurd (omega (arith, length, p))
      ]

  eleven_taken :
      (t : String) → is_decimal t ≡ true → len t ≡ 11 → leb (len t) 12 && matches_column t ≡ true
  unfolding matches_column
  eleven_taken t h n = rw (is_decimal-first 10 t h (omega (arith, n)), n) refl

  -- By the generic edit any caller can store eleven digits as the tax number of any supplier, if no
  -- other supplier has them: the answer is 200, and the stored number is one that
  -- `validate_tax_number` refuses.
  pub eleven_digits_stored :
      ⦃d : Django⦄
      → (build : String → String) (caller user : User) (s : Supplier) (t : String) (db : Db)
      → get s.id db.suppliers ≡ some s
      → get s.user db.users ≡ some user
      → any (λ x. not (x.id == s.id) && str_eq x.tax_number t) db.suppliers.rows ≡ false
      → is_decimal t ≡ true
      → len t ≡ 11
      → let (answer, db') = patch_supplier build caller s.id (renumber t) db in
        ((v : UserView) × (answer ≡ reply 200 (supplier_data (record s { tax_number = t }) v)))
        × (get s.id db'.suppliers ≡ some (record s { tax_number = t }))
        × ((r : String) → validate_tax_number t ≢ ok r)
  unfolding patch_supplier shown tax_number_refused update
  eleven_digits_stored build caller user s t db stored owner free h n =
      let (v, e) = user_data-ok build user in
      rw (stored, patch_supplier, eleven_taken t h n, free)
        (
          (v, rw (owner, shown, e) refl),
          get-replace_self (record s { tax_number = t }) s db.suppliers.rows stored,
          λ r. eleven_refused t r h n,
        )
