-- ===== src/Python.antt =====
-- Python values as `json.loads`, `yaml.safe_load` and `csv.DictReader` return them, and what the
-- code does with a value of unknown type.
use python_diplom.Base.{
  ℕ, String, Bool, true, false, not, ◌||◌, Option, none, some, str_eq, ◌==◌, if◌then◌else◌, ◌≡◌,
  is_some, or_default,
}
use python_diplom.Base.Int.{ℤ, pos, negsuc}
use python_diplom.Exn.{
  Exn, Result, ok, err, type_error, attribute_error, integrity_error, key_error, invalid_operation,
  or_raise,
}
use python_diplom.Text.{is_empty}
use python_diplom.Text.Split.{contains}

-- A float is kept as the text that `str` gives.
mutual
  pub data Value : Type 0 where
    null : Value
    flag : Bool → Value
    whole : ℤ → Value
    real text : String → Value
    array : Items → Value
    dict : Fields → Value

  pub data Items : Type 0 where
    nil : Items
    cons : Value → Items → Items

  -- the entries of a dictionary, in order
  pub data Fields : Type 0 where
    end : Fields
    field : String → Value → Fields → Fields

-- What Python and its module `decimal` do with values. `str` of a text is the text; `Decimal` of a
-- text raises `InvalidOperation` alone.
pub record Python : Type 1 where
  pub Decimal : Type 0
  pub str : Value → String
  pub int : Value → Result ℤ
  pub is_zero : String → Bool
  pub decimal : String → Result Decimal
  -- the comparisons with 0; that of a NaN raises
  pub is_negative : Decimal → Result Bool
  pub is_positive : Decimal → Result Bool
  -- the number that a column with two decimal places stores, in hundredths
  pub column : Decimal → Result ℤ
  -- `str(e)` of an exception
  pub exn_text : Exn → String
  pub str_text : (s : String) → str (text s) ≡ s
  pub decimal-raises : (s : String) (e : Exn) → decimal s ≡ err e → e ≡ invalid_operation

-- `bool(value)`
unfoldable pub truthy : ⦃py : Python⦄ → Value → Bool
truthy null = false
truthy (flag b) = b
truthy (whole (pos n)) = not (n == 0)
truthy (whole (negsuc n)) = true
truthy ⦃py⦄ (real s) = not (py.is_zero s)
truthy (text s) = not (is_empty s)
truthy (array nil) = false
truthy (array (cons v vs)) = true
truthy (dict end) = false
truthy (dict (field k v fs)) = true

abbrev pub find_field : String → Fields → Option Value
find_field k end = none
find_field k (field j v fs) = let rest = find_field k fs in if str_eq j k then some v else rest

abbrev pub is_text : String → Value → Bool
is_text k (text s) = str_eq s k
is_text k _ = false

abbrev pub has_text : String → Items → Bool
has_text k nil = false
has_text k (cons v vs) = is_text k v || has_text k vs

-- `key in value`: a substring of a text, a member of a list
unfoldable pub has_key : String → Value → Result Bool
has_key k (dict fs) = ok (is_some (find_field k fs))
has_key k (array vs) = ok (has_text k vs)
has_key k (text s) = ok (contains k s)
has_key k _ = err type_error

-- `value[key]`
unfoldable pub item : String → Value → Result Value
item k (dict fs) = or_raise (find_field k fs) (key_error k)
item k _ = err type_error

-- `value.get(key, default)`
unfoldable pub get_field : String → Value → Value → Result Value
get_field k default (dict fs) = ok (or_default default (find_field k fs))
get_field k default _ = err attribute_error

-- What a text column stores; it refuses `None`.
unfoldable pub char_field : ⦃py : Python⦄ → Value → Result String
char_field null = err integrity_error
char_field ⦃py⦄ v = ok (py.str v)

-- What a column of non-negative numbers stores.
unfoldable pub positive_field : ℤ → Result ℕ
positive_field (pos n) = ok n
positive_field (negsuc n) = err integrity_error
