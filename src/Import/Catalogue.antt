-- ===== src/Import/Catalogue.antt =====
-- An import keeps what the unique columns of the catalogue promise.
use python_diplom.Text.{Unicode}
use python_diplom.Models.{Db, User, Supplier}
use python_diplom.Python.{Python}
use python_diplom.PriceList.Catalogue.{IsCatalogue, IsCatalogue-Keeps}
use python_diplom.FileFormats.{Parsers, ImportRequest}
use python_diplom.Import.{import_products}
use python_diplom.Import.Frame.{KeepsLog, import_products-keeps}
use python_diplom.Base.{true, or_default}

log_kept : (s : Supplier) → KeepsLog s IsCatalogue
log_kept s name t db q = record {
  products = q.products;
  categories = q.categories;
  attributes = q.attributes;
  values = q.values;
}

module _ ⦃u : Unicode⦄ ⦃py : Python⦄ where
  -- Any import keeps the catalogue in order: no two products share a number, no two categories or
  -- characteristics a name, and no product has two values of one characteristic.
  pub import_products-IsCatalogue :
      ⦃ps : Parsers⦄
      → (user : User) (request : ImportRequest) (db : Db) → IsCatalogue db
      → IsCatalogue (import_products user request db).1
  import_products-IsCatalogue user request db q =
      import_products-keeps IsCatalogue user request db
        (λ s h. (IsCatalogue-Keeps s (or_default true request.update_existing), log_kept s)) q
