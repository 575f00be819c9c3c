-- ===== src/RecordCheck.antt =====
-- The check of one record of a price list: `_validate_product_data` of `ProductViewSet` in
-- orders/backend/views.py.
use Prim.Native.String
use python_diplom.Base.{
  ℕ, zero, suc, String, Bool, true, false, not, Option, none, some, List, [], ◌∷◌, ◌++◌, map,
  if◌then◌else◌,
}
use python_diplom.Base.Int.{ℤ, pos, negsuc}
use python_diplom.Exn.{Result, ok, err, value_error, type_error, ◌>>=◌}
use python_diplom.Text.{show}
use python_diplom.Models.{product_model, category_model, attribute_model, value_model}
use python_diplom.Python.{Value, Python, truthy, has_key, item}

-- `try: …` `except (ValueError, TypeError): errors.append(message)`
abbrev pub on_bad : String → Result (List String) → Result (List String)
on_bad message (ok errors) = ok errors
on_bad message (err value_error) = ok (message ∷ [])
on_bad message (err type_error) = ok (message ∷ [])
on_bad message (err e) = err e

-- `if row_num: errors = [f"Строка {row_num}: {error}" …]`
abbrev pub row_prefix : Option ℕ → String → String
row_prefix none s = s
row_prefix (some zero) s = s
row_prefix (some (suc n)) s =
    String.◌++◌ "Строка " (String.◌++◌ (show (suc n)) (String.◌++◌ ": " s))

-- `f(value)` if the key is there, and no error otherwise
abbrev pub with_key : String → Value → (Value → Result (List String)) → Result (List String)
with_key k entry f = do has ← has_key k entry; if has then item k entry >>= f else ok []

abbrev pub error_if : Bool → String → List String
error_if bad message = if bad then message ∷ [] else []

module _ ⦃py : Python⦄ where
  -- the first loop of `_validate_product_data`, for one field
  unfoldable pub required_error : String → Value → Result (List String)
  required_error k entry = do
    has ← has_key k entry
    if has
        then (item k entry >>= λ v.
            ok (error_if (not (truthy v)) (String.◌++◌ "Отсутствует обязательное поле: " k)))
        else ok (String.◌++◌ "Отсутствует обязательное поле: " k ∷ [])

  unfoldable pub price_errors : Value → Result (List String)
  price_errors entry = on_bad "Некорректный формат цены" (
      with_key "price" entry (λ v. do
        price ← py.decimal (py.str v)
        good ← py.is_positive price
        ok (error_if (not good) "Цена должна быть положительной")))

  abbrev pub negative : ℤ → Bool
  negative (pos n) = false
  negative (negsuc n) = true

  unfoldable pub quantity_errors : Value → Result (List String)
  quantity_errors entry = on_bad "Некорректный формат количества" (
      with_key "stock_quantity" entry (λ v. do
        quantity ← py.int v
        ok (error_if (negative quantity) "Количество не может быть отрицательным")))

  -- the check of `cost_price`, which is only made when the value counts as true
  unfoldable pub cost_errors : Value → Result (List String)
  cost_errors entry = with_key "cost_price" entry (λ v.
      if truthy v
      then on_bad "Некорректный формат себестоимости" (do
        cost ← py.decimal (py.str v)
        bad ← py.is_negative cost
        ok (error_if bad "Себестоимость не может быть отрицательной"))
      else ok [])

  -- `_validate_product_data`
  unfoldable pub validate : Option ℕ → Value → Result (List String)
  unfolding required_error price_errors quantity_errors cost_errors
  validate row_num entry = do
    e₁ ← required_error "sku" entry
    e₂ ← required_error "name" entry
    e₃ ← required_error "price" entry
    e₄ ← required_error "stock_quantity" entry
    e₅ ← price_errors entry
    e₆ ← quantity_errors entry
    e₇ ← cost_errors entry
    ok (map (row_prefix row_num) (e₁ ++ e₂ ++ e₃ ++ e₄ ++ e₅ ++ e₆ ++ e₇))
