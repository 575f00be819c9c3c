-- ===== src/Template.antt =====
-- `export_template` of `ProductViewSet` in orders/backend/views.py: the template of a price list. The
-- renderers of the REST framework, `yaml.dump` and `csv.DictWriter` are parameters.
pub mod Accepted
use python_diplom.Base.{
  ℕ, String, Bool, true, not, ◌||◌, Option, none, some, or_default, str_eq, if◌then◌else◌,
}
use python_diplom.Base.Int.{pos}
use python_diplom.Exn.{Result, ok, err, http404}
use python_diplom.Action.{Response}
use python_diplom.Python.{
  Value, flag, whole, real, text, array, dict, Items, nil, cons, Fields, end, field,
}

-- `is_renderer`: whether a renderer is installed for the value of `?format=`, which the framework
-- takes for the format of the response. `dump` and `write_csv` are the texts that the libraries write.
pub record Rendering : Type 0 where
  pub is_renderer : String → Bool
  pub dump : Items → String
  pub write_csv : Fields → String

abbrev pub template_attributes : Fields
template_attributes =
    field "цвет" (text "черный") (field "размер" (text "42") (field "материал" (text "хлопок") end))

abbrev pub template_data : Fields
template_data = field "sku" (text "PRD001") (
    field "name" (text "Наименование товара") (
      field "category" (text "Категория товара") (
        field "price" (real "1000.5") (
          field "cost_price" (real "800.0") (
            field "stock_quantity" (whole (pos 50)) (
              field "min_order_quantity" (whole (pos 1)) (
                field "unit" (text "шт") (
                  field "is_active" (flag true) (
                    field "description" (text "Описание товара")
                      (field "attributes" (dict template_attributes) end))))))))))

abbrev pub template : Items
template = cons (dict template_data) nil

pub data Reply : Type 0 where
  records : Items → Reply
  document : String → String → Reply
  error : String → Reply

abbrev pub reply : ℕ → Reply → Result (Response Reply)
reply status body = ok (record { status = status; body = body })

module _ ⦃r : Rendering⦄ where
  -- the handler
  unfoldable pub template_in : String → Result (Response Reply)
  template_in format =
      if str_eq format "json"
      then reply 200 (records template)
      else if str_eq format "yaml" || str_eq format "yml"
      then reply 200 (document "application/yaml" (r.dump template))
      else if str_eq format "csv"
      then reply 200 (document "text/csv" (r.write_csv template_data))
      else reply 400 (error "Неподдерживаемый формат. Доступны: json, yaml, csv")

  -- The request: the framework looks for a renderer before it calls the handler.
  unfoldable pub export_template : Option String → Result (Response Reply)
  unfolding template_in
  export_template none = template_in "json"
  export_template (some format) = if r.is_renderer format then template_in format else err http404
