-- ===== src/Exn.antt =====
-- Python exceptions as values: a call that may raise returns a `Result`.
use python_diplom.Base.{
  String, ◌≡◌, refl, Option, none, some, Bool, true, false, ◌⊎◌, inl, inr, ◌≢◌,
}

-- The exceptions that the code raises or lets through.
pub data Exn : Type 0 where
  -- `serializers.ValidationError` and Django's `ValidationError`, with the field and the message
  validation_error : String → String → Exn
  value_error index_error type_error attribute_error recursion_error : Exn
  key_error : String → Exn
  -- the database refuses a row (unique or not-null constraint)
  integrity_error : Exn
  -- the row is referred to by a foreign key with `PROTECT`
  protected_error : Exn
  -- the column cannot hold the number, or `Decimal` cannot read the text
  invalid_operation : Exn
  -- `X.DoesNotExist`, and the missing row behind a one-to-one attribute
  does_not_exist : Exn
  -- `Http404` of `get_object`
  http404 : Exn
  -- `AuthException` of the social login library
  auth_exception : String → Exn
  -- any other exception of a library, with its `str`
  other_error : String → Exn

pub data Result {ℓ} (A : Type ℓ) : Type ℓ where
  ok : A → Result A
  err : Exn → Result A

abbrev pub or_raise {ℓ} : {A : Type ℓ} → Option A → Exn → Result A
or_raise (some a) e = ok a
or_raise none e = err e

-- `if not good: raise e`
abbrev pub require : Bool → Exn → Result (Unit {0})
require false e = err e
require true e = ok tt

infixl 5 ◌>>=◌ ◌>>◌
abbrev pub ◌>>=◌ {ℓ κ} : {A : Type ℓ} {B : Type κ} → Result A → (A → Result B) → Result B
err raised >>= next = err raised
ok value >>= next = next value

abbrev pub ◌>>◌ {ℓ} : {B : Type ℓ} → Result (Unit {0}) → Result B → Result B
first >> next = first >>= λ _. next

pub Result-cases {ℓ} :
    {A : Type ℓ} (r : Result A) → ((a : A) × (r ≡ ok a)) ⊎ ((e : Exn) × (r ≡ err e))
Result-cases (ok a) = inl (a, refl)
Result-cases (err e) = inr (e, refl)

pub err-ne-ok {ℓ} : {A : Type ℓ} {a : A} {e : Exn} → err e ≢ ok a
err-ne-ok h = cc

-- A `do` block that returns has got past its first call.
pub >>=-eq-ok {ℓ κ} :
    {A : Type ℓ} {B : Type κ} (call : Result A) (next : A → Result B) {b : B}
    → (call >>= next) ≡ ok b
    → (a : A) × (call ≡ ok a) × (next a ≡ ok b)
>>=-eq-ok (err raised) next returned = cc
>>=-eq-ok (ok value) next returned = (value, refl, returned)

pub ok-injective {ℓ} : {A : Type ℓ} {a b : A} → ok a ≡ ok b → a ≡ b
ok-injective h = cc
