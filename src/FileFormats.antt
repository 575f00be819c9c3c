-- ===== src/FileFormats.antt =====
-- The file of a price list: `_detect_format`, the three parsers, and what `import_products` of
-- `ProductViewSet` in orders/backend/views.py does before it looks at the caller, with
-- `ProductImportSerializer` of serializers.py and the answers of an import.
use Prim.Native.String.{[], ◌∷◌}
use Prim.Native.String
use python_diplom.Base.{
  ℕ, String, Bool, not, ◌||◌, Option, none, some, List, str_eq, if◌then◌else◌, or_default,
}
use python_diplom.Exn.{Result, ok, err}
use python_diplom.Text.{Unicode}
use python_diplom.Text.Split.{split_on}
use python_diplom.Models.{log_model}
use python_diplom.Action.{Response}
use python_diplom.Python.{Value, array, Items, Python}

-- Reading a file as UTF-8, `csv.DictReader`, `json.loads` and `yaml.safe_load`.
pub record Parsers : Type 1 where
  pub Bytes : Type 0
  pub decode : Bytes → Option String
  pub csv_rows : String → Result Items
  pub json_loads : String → Result Value
  pub safe_load : String → Result Value

pub record PriceFile ⦃ps : Parsers⦄ : Type 0 where
  pub name : String
  pub content : ps.Bytes

-- The fields of the form; `file` is `none` also for an empty file, which `FileField` refuses.
pub record ImportRequest ⦃ps : Parsers⦄ : Type 0 where
  pub file : Option PriceFile
  pub update_existing : Option Bool
  pub format : Option String

-- `response_data`; `total_errors` is there when `errors_truncated` is.
pub record Report : Type 0 where
  pub message : String
  pub format : String
  pub success_count : ℕ
  pub failed_count : ℕ
  pub total_count : ℕ
  pub log_id : ℕ
  pub errors : List String
  pub total_errors : Option ℕ

pub data Reply : Type 0 where
  -- `serializer.errors`: the fields that have one
  invalid : List String → Reply
  error : String → Reply
  report : Report → Reply

abbrev pub reply : ℕ → Reply → Response Reply
reply status body = record { status = status; body = body }

-- What comes before the rights are checked: an answer, or the records of the file.
pub data Parsed : Type 0 where
  refused : Response Reply → Parsed
  records : Items → Parsed

abbrev last_part : String → List String → String
last_part s List.[] = s
last_part s (List.◌∷◌ t ts) = last_part t ts

abbrev pub format_mapping : String → String
format_mapping ext =
    if str_eq ext "csv"
    then "csv"
    else if str_eq ext "json"
    then "json"
    else if str_eq ext "yaml" || str_eq ext "yml"
    then "yaml"
    else "csv"

-- `_detect_format`
unfoldable pub detect_format : ⦃u : Unicode⦄ → String → String → String
detect_format ⦃u⦄ filename specified_format =
    if not (str_eq specified_format "auto")
    then specified_format
    else format_mapping (last_part "" (split_on b'.' (u.lower filename)))

abbrev pub is_choice : String → Bool
is_choice s =
    str_eq s "auto" || str_eq s "csv" || str_eq s "json" || str_eq s "yaml" || str_eq s "yml"

abbrev pub wrong_format : Option String → List String
wrong_format format =
    if is_choice (or_default "auto" format) then List.[] else List.◌∷◌ "format" List.[]

abbrev pub is_supported : String → Bool
is_supported s = str_eq s "csv" || str_eq s "json" || str_eq s "yaml"

-- `if products_data is not a list`
abbrev pub need_list : ⦃u : Unicode⦄ → String → Value → Parsed
need_list format (array vs) = records vs
need_list ⦃u⦄ format v =
    refused
      (reply 400 (error (String.◌++◌ (u.upper format) " файл должен содержать массив объектов")))

module _ ⦃ps : Parsers⦄ where
  -- `_parse_csv`, `_parse_json` and `_parse_yaml`
  unfoldable pub parse : String → String → Result Value
  parse format content =
      if str_eq format "csv"
      then elim (ps.csv_rows content) [ ok rows ↦ ok (array rows) | err e ↦ err e ]
      else if str_eq format "json"
      then ps.json_loads content
      else ps.safe_load content

  -- `import_products`, from the reading of the file to the check for a list
  unfoldable pub read_file : ⦃u : Unicode⦄ → ⦃py : Python⦄ → String → PriceFile → Parsed
  read_file ⦃u⦄ ⦃py⦄ format file =
      if not (is_supported format)
      then refused (
          reply 400 (
            error (
              String.◌++◌ "Неподдерживаемый формат файла: "
                (String.◌++◌ format ". Поддерживаются: csv, json, yaml"))))
      else elim (ps.decode file.content) [
        | none ↦
            refused (
              reply 400 (error "Ошибка декодирования файла. Убедитесь, что файл в кодировке UTF-8"))
        | some content ↦ elim (parse format content) [
          | err e ↦ refused (
              reply 400 (
                error (
                  String.◌++◌ "Ошибка парсинга "
                    (String.◌++◌ (u.upper format) (String.◌++◌ " файла: " (py.exn_text e))))))
          | ok v ↦ need_list format v
        ]
      ]
