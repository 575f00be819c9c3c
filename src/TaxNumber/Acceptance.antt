-- ===== src/TaxNumber/Acceptance.antt =====
-- Which tax numbers `validate_tax_number` accepts, and what it returns for them.
use mathlib.Core.Path.{subst}
use python_diplom.TaxNumber.CheckDigits.{
  digits, len-digits, IsInn10, IsInn12, validate_inn_10_iff, validate_inn_12_iff,
}
use python_diplom.Base.{
  ℕ, List, some, inl, inr, ◌∙◌, String, ◌≡◌, sym, ◌↔◌, refl, ◌⊎◌, true, false, arith,
}
use python_diplom.Exn.{ok-injective, ok}
use python_diplom.Text.{Unicode, is_empty, len, all_chars}
use python_diplom.TaxNumber.{
  strip_separators, isdigit, validate_inn_10, validate_inn_12, validate_tax_number, clean,
}

module _ ⦃u : Unicode⦄ where
  -- A tax number in its stored form: ten or twelve digits whose check digits are right.
  abbrev pub IsInn : String → Type 0
  IsInn s = (isdigit s ≡ true) × (ds : List ℕ) × (digits s ≡ some ds) × (IsInn10 ds ⊎ IsInn12 ds)

  -- The same in terms of the code's checks.
  abbrev Passes : String → Type 0
  Passes s =
      (isdigit s ≡ true)
      × ((len s ≡ 10) × (validate_inn_10 s ≡ ok true)
          ⊎ (len s ≡ 12) × (validate_inn_12 s ≡ ok true))

  IsInn-Passes : (s : String) → Passes s → IsInn s
  IsInn-Passes s (d, inl (l, h)) =
      let (ds, e, w) = (validate_inn_10_iff s l).0 h in (d, ds, e, inl w)
  IsInn-Passes s (d, inr (l, h)) =
      let (ds, e, w) = (validate_inn_12_iff s l).0 h in (d, ds, e, inr w)

  Passes-IsInn : (s : String) → IsInn s → Passes s
  Passes-IsInn s (d, ds, e, inl w) =
      let l : len s ≡ 10 = sym (len-digits s ds e) ∙ w.0 in
      (d, inl (l, (validate_inn_10_iff s l).1 (ds, e, w)))
  Passes-IsInn s (d, ds, e, inr w) =
      let l : len s ≡ 12 = sym (len-digits s ds e) ∙ w.0 in
      (d, inr (l, (validate_inn_12_iff s l).1 (ds, e, w)))

  pub IsInn-length : (s : String) → IsInn s → (len s ≡ 10) ⊎ (len s ≡ 12)
  IsInn-length s (d, ds, e, inl w) = inl (sym (len-digits s ds e) ∙ w.0)
  IsInn-length s (d, ds, e, inr w) = inr (sym (len-digits s ds e) ∙ w.0)

  -- Stripping leaves no separator behind, and leaves digits alone.
  pub strip_separators-digits :
      (s : String) → all_chars u.is_digit s ≡ true → strip_separators s ≡ s
  unfolding strip_separators
  strip_separators-digits String.[] h = refl
  strip_separators-digits (String.◌∷◌ c s) h =
      ground (arith, strip_separators-digits s, u.digit-not_space c, u.digit-not_hyphen c)

  accepts_sound :
      (value r : String)
      → is_empty value ≡ false
      → validate_tax_number value ≡ ok r
      → (r ≡ strip_separators value) × Passes r
  unfolding validate_tax_number
  accepts_sound value r h e = ground arith

  accepts_complete :
      (value : String)
      → is_empty value ≡ false
      → Passes (strip_separators value)
      → validate_tax_number value ≡ ok (strip_separators value)
  unfolding validate_tax_number
  accepts_complete value h v = ground arith

  -- A non-empty text is accepted exactly if what is left of it without spaces and hyphens is a
  -- tax number, ten or twelve digits whose last, or last two, are the sums of those before them with
  -- the published weights, modulo 11 and 10; and then that is what is returned.
  pub accepts_iff :
      (value r : String)
      → is_empty value ≡ false
      → ((validate_tax_number value ≡ ok r) ↔ ((r ≡ strip_separators value) × IsInn r))
  accepts_iff value r h = (
    λ e. (let (same, v) = accepts_sound value r h e in (same, IsInn-Passes r v)),
    λ p. rw p.0 (accepts_complete value h (subst Passes p.0 (Passes-IsInn r p.1))),
  )

  Passes-not_empty : (r : String) → Passes r → is_empty r ≡ false
  Passes-not_empty String.[] v = ground arith
  Passes-not_empty (String.◌∷◌ c s) v = refl

  Passes-stripped : (r : String) → Passes r → strip_separators r ≡ r
  Passes-stripped r v = strip_separators-digits r (ground arith)

  -- What `validate_tax_number` has returned it returns again, so a stored number stays accepted.
  validate_idem :
      (value r : String) → validate_tax_number value ≡ ok r → validate_tax_number r ≡ ok r
  unfolding validate_tax_number
  validate_idem String.[] r h = rw (← ok-injective h) refl
  validate_idem (String.◌∷◌ c s) r h =
      let (_, v) = accepts_sound (String.◌∷◌ c s) r refl h in
      (accepts_iff r r (Passes-not_empty r v)).1 (sym (Passes-stripped r v), IsInn-Passes r v)

  -- A tax number that registration accepts also passes the check of the admin form.
  pub clean-accepted : (value r : String) → validate_tax_number value ≡ ok r → clean r ≡ ok tt
  unfolding clean validate_tax_number
  clean-accepted String.[] r h = rw (← ok-injective h) refl
  clean-accepted (String.◌∷◌ c s) r h =
      let (_, v) = accepts_sound (String.◌∷◌ c s) r refl h in
      rw (Passes-stripped r v) (ground arith)
