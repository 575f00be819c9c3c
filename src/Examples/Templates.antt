-- ===== src/Examples/Templates.antt =====
-- Examples for the theorem on the template of price lists.
use python_diplom.Base.{ℕ, String, ◌≡◌, refl, some, [], str_eq, ◌||◌, Option, sym}
use python_diplom.Base.Int.{pos, ℤ}
use python_diplom.Exn.{Result, ok, err-ne-ok, Exn, err, invalid_operation}
use python_diplom.Python.{Python, dict}
use python_diplom.RecordCheck.{validate}
use python_diplom.Template.{
  Rendering, template_data, template, records, reply, template_in, export_template,
}
use python_diplom.Template.Accepted.{ReadsTemplate, template_accepted}
use python_diplom.Examples.Values.{toy_python}

-- The framework's two renderers.
instance abbrev json_and_api : Rendering
json_and_api = record {
  is_renderer = λ format. str_eq format "json" || str_eq format "api";
  dump = λ records. "";
  write_csv = λ fields. "";
}

ok_reads : (s : String) (e : Exn) → ◌≡◌ {A = Result ℤ} (ok (pos 1)) (err e) → e ≡ invalid_operation
ok_reads s e h = absurd (err-ne-ok (sym h))

-- A `Decimal` that reads every text as the same number.
abbrev one_number : Python
one_number = record toy_python { decimal = λ s. ok (pos 1); decimal-raises = ok_reads }

reads : ReadsTemplate one_number
reads = record {
  price = pos 1;
  cost = pos 1;
  price_read = refl;
  price_good = refl;
  price_full = refl;
  cost_read = refl;
  cost_good = refl;
  cost_full = refl;
  quantity_read = refl;
}

answers_json : export_template (some "json") ≡ reply 200 (records template)
unfolding export_template template_in
answers_json = refl

template_accepted_example :
    (export_template (some "json") ≡ reply 200 (records template))
    × ((row : Option ℕ) → validate ⦃py = one_number⦄ row (dict template_data) ≡ ok [])
template_accepted_example =
    template_accepted ⦃py = one_number⦄
      (record { yaml_missing = refl; yml_missing = refl; csv_missing = refl }) reads (some "json")
      (record { status = 200; body = records template }) answers_json refl
