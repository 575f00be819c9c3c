-- ===== src/Integrity.antt =====
-- Foreign keys: which rows of orders/backend/models.py refer to which, and what the deletions of the
-- viewsets in orders/backend/views.py and the creation of orders leave of them.
pub mod Links
pub mod Deletions
pub mod NewOrders
pub mod Requests
use python_diplom.Base.{ℕ, Bool, true, ◌==◌, List, [], ◌∷◌, any, All, ◌≡◌}
use python_diplom.Models.{Db, Supplier}
use python_diplom.Table.Unique.{Unique}

-- Each row of the first list refers to a row of the second.
abbrev pub Refers : {A B : Type 0} → (A → ℕ) → (B → ℕ) → List A → List B → Type 0
Refers key pk rows targets = All (λ a. any (λ b. pk b == key a) targets ≡ true) rows

-- Every foreign key finds its row, and a user has one profile at most.
pub record IsLinked (db : Db) : Type 0 where
  pub profiles : Refers (λ s. s.user) (λ u. u.id) db.suppliers.rows db.users.rows
  pub one_profile : Unique (λ (s : Supplier). s.user) db.suppliers.rows
  pub sellers : Refers (λ p. p.supplier) (λ s. s.id) db.products.rows db.suppliers.rows
  pub kinds : Refers (λ p. p.category) (λ c. c.id) db.products.rows db.categories.rows
  pub pictures : Refers (λ i. i.product) (λ p. p.id) db.images.rows db.products.rows
  pub valued : Refers (λ v. v.product) (λ p. p.id) db.product_attributes.rows db.products.rows
  pub named : Refers (λ v. v.attribute) (λ a. a.id) db.product_attributes.rows db.attributes.rows
  pub importers : Refers (λ l. l.supplier) (λ s. s.id) db.logs.rows db.suppliers.rows
  pub clients : Refers (λ o. o.client) (λ u. u.id) db.orders.rows db.users.rows
  pub ordered_in : Refers (λ i. i.order) (λ o. o.id) db.items.rows db.orders.rows
  pub ordered : Refers (λ i. i.product) (λ p. p.id) db.items.rows db.products.rows
  pub sold_by : Refers (λ i. i.supplier) (λ s. s.id) db.items.rows db.suppliers.rows
