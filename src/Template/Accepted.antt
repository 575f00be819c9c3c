-- ===== src/Template/Accepted.antt =====
-- The template, and the check of an import.
use python_diplom.Base.{ℕ, String, true, false, ◌≡◌, refl, Option, none, some, [], eq_iff, arith}
use python_diplom.Base.Int.{pos}
use python_diplom.Exn.{ok}
use python_diplom.Action.{Response}
use python_diplom.Python.{Python, dict, whole, real, truthy, has_key, item}
use python_diplom.RecordCheck.{validate, required_error, price_errors, quantity_errors, cost_errors}
use python_diplom.Template.{
  Reply, Rendering, template_data, template, records, reply, template_in, export_template,
}

-- The formats of the framework's own renderers: none is called like a format of price lists but json.
pub record IsDefault (r : Rendering) : Type 0 where
  pub yaml_missing : r.is_renderer "yaml" ≡ false
  pub yml_missing : r.is_renderer "yml" ≡ false
  pub csv_missing : r.is_renderer "csv" ≡ false

-- What Python does with the numbers of the template.
pub record ReadsTemplate (py : Python) : Type 0 where
  pub price : py.Decimal
  pub cost : py.Decimal
  pub price_read : py.decimal (py.str (real "1000.5")) ≡ ok price
  pub price_good : py.is_positive price ≡ ok true
  pub price_full : py.is_zero "1000.5" ≡ false
  pub cost_read : py.decimal (py.str (real "800.0")) ≡ ok cost
  pub cost_good : py.is_negative cost ≡ ok false
  pub cost_full : py.is_zero "800.0" ≡ false
  pub quantity_read : py.int (whole (pos 50)) ≡ ok (pos 50)

template_valid :
    ⦃py : Python⦄ → ReadsTemplate py → (row : Option ℕ) → validate row (dict template_data) ≡ ok []
unfolding validate required_error price_errors quantity_errors cost_errors truthy has_key item
template_valid t row = simp (
  t.price_full, t.cost_full, t.price_read, t.price_good, t.cost_read, t.cost_good, t.quantity_read,
)

module _ ⦃r : Rendering⦄ where
  only_json :
      (default : IsDefault r) (format : Option String) (answer : Response Reply)
      → export_template format ≡ ok answer
      → answer.status ≡ 200
      → export_template format ≡ reply 200 (records template)
  unfolding export_template template_in
  only_json default none answer e s = refl
  only_json default (some format) answer e s = ground (
    arith,
    eq_iff format "json",
    eq_iff format "yaml",
    eq_iff format "yml",
    eq_iff format "csv",
    default.yaml_missing,
    default.yml_missing,
    default.csv_missing,
  )

  -- With the framework's own renderers, an answer 200 to a request for a template is the list of
  -- records as it stands, whatever format is asked for; and its record passes the check of an import.
  pub template_accepted :
      ⦃py : Python⦄
      → (default : IsDefault r) (t : ReadsTemplate py) (format : Option String)
        (answer : Response Reply)
      → export_template format ≡ ok answer
      → answer.status ≡ 200
      → (export_template format ≡ reply 200 (records template))
        × ((row : Option ℕ) → validate row (dict template_data) ≡ ok [])
  template_accepted default t format answer e s =
      (only_json default format answer e s, template_valid t)
