-- ===== src/Import/LinkedTables.antt =====
-- The foreign keys when an import has changed one or two of the tables.
use python_diplom.Base.{ℕ, true, List, any, All, ◌≡◌, ◌==◌}
use python_diplom.Table.{Table}
use python_diplom.Models.{
  Db, Product, ProductImage, ProductAttribute, OrderItem, PriceUpdateLog, Category, Attribute,
  product_model, category_model, attribute_model, value_model, supplier_model, log_model,
}
use python_diplom.Integrity.{Refers, IsLinked}

-- Every foreign key finds its row, and the supplier is there.
pub record IsLinkedFor (supplier : ℕ) (db : Db) : Type 0 where
  pub linked : IsLinked db
  pub importer : any (λ s. s.id == supplier) db.suppliers.rows ≡ true

module _ (supplier : ℕ) (db : Db) (was : IsLinkedFor supplier db) where
  -- The tables of categories and characteristics may grow.
  pub with_names :
      (categories : Table Category) (attributes : Table Attribute)
      → Refers (λ p. p.category) (λ c. c.id) db.products.rows categories.rows
      → Refers (λ v. v.attribute) (λ a. a.id) db.product_attributes.rows attributes.rows
      → IsLinkedFor supplier (record db { categories = categories; attributes = attributes })
  with_names categories attributes a b = record {
    linked = record {
      profiles = was.linked.profiles;
      one_profile = was.linked.one_profile;
      sellers = was.linked.sellers;
      kinds = a;
      pictures = was.linked.pictures;
      valued = was.linked.valued;
      named = b;
      importers = was.linked.importers;
      clients = was.linked.clients;
      ordered_in = was.linked.ordered_in;
      ordered = was.linked.ordered;
      sold_by = was.linked.sold_by;
    };
    importer = was.importer;
  }

  pub with_values :
      (values : Table ProductAttribute)
      → Refers (λ v. v.product) (λ p. p.id) values.rows db.products.rows
      → Refers (λ v. v.attribute) (λ a. a.id) values.rows db.attributes.rows
      → IsLinkedFor supplier (record db { product_attributes = values })
  with_values values a b = record {
    linked = record {
      profiles = was.linked.profiles;
      one_profile = was.linked.one_profile;
      sellers = was.linked.sellers;
      kinds = was.linked.kinds;
      pictures = was.linked.pictures;
      valued = a;
      named = b;
      importers = was.linked.importers;
      clients = was.linked.clients;
      ordered_in = was.linked.ordered_in;
      ordered = was.linked.ordered;
      sold_by = was.linked.sold_by;
    };
    importer = was.importer;
  }

  -- No product is taken out, and all are of a supplier and of a category that are there.
  pub with_products :
      (products : Table Product)
      → All (λ p. any (λ s. s.id == p.supplier) db.suppliers.rows ≡ true) products.rows
      → All (λ p. any (λ c. c.id == p.category) db.categories.rows ≡ true) products.rows
      → ((A : Type 0) (key : A → ℕ) (rows : List A)
          → Refers key (λ p. p.id) rows db.products.rows
          → Refers key (λ p. p.id) rows products.rows)
      → IsLinkedFor supplier (record db { products = products })
  with_products products a b kept = record {
    linked = record {
      profiles = was.linked.profiles;
      one_profile = was.linked.one_profile;
      sellers = a;
      kinds = b;
      pictures = kept _ (λ (i : ProductImage). i.product) db.images.rows was.linked.pictures;
      valued =
          kept _ (λ (v : ProductAttribute). v.product) db.product_attributes.rows was.linked.valued;
      named = was.linked.named;
      importers = was.linked.importers;
      clients = was.linked.clients;
      ordered_in = was.linked.ordered_in;
      ordered = kept _ (λ (i : OrderItem). i.product) db.items.rows was.linked.ordered;
      sold_by = was.linked.sold_by;
    };
    importer = was.importer;
  }

  pub with_logs :
      (logs : Table PriceUpdateLog)
      → Refers (λ l. l.supplier) (λ s. s.id) logs.rows db.suppliers.rows
      → IsLinkedFor supplier (record db { logs = logs })
  with_logs logs a = record {
    linked = record {
      profiles = was.linked.profiles;
      one_profile = was.linked.one_profile;
      sellers = was.linked.sellers;
      kinds = was.linked.kinds;
      pictures = was.linked.pictures;
      valued = was.linked.valued;
      named = was.linked.named;
      importers = a;
      clients = was.linked.clients;
      ordered_in = was.linked.ordered_in;
      ordered = was.linked.ordered;
      sold_by = was.linked.sold_by;
    };
    importer = was.importer;
  }
