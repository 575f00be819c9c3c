-- ===== src/Import/Links.antt =====
-- An import leaves no foreign key without its row.
use python_diplom.Base.{
  ℕ, String, Bool, true, none, [], ◌∷◌, any, find, All-append, ◌≡◌, sym, ◌∙◌, ◌==◌, str_eq,
  some-injective, Option-cases, inl, inr, or_default,
}
use mathlib.Core.Path.{subst}
use python_diplom.Text.{Unicode}
use python_diplom.Table.{insert, update}
use python_diplom.Table.Presence.{All-find, All-replaced, find-any}
use python_diplom.Models.{
  Db, User, Supplier, Product, ProductAttribute, PriceUpdateLog, Category, Attribute,
  supplier_profile, product_model, category_model, attribute_model, value_model, supplier_model,
  log_model,
}
use python_diplom.Python.{Python}
use python_diplom.Characteristics.{attribute_named, set_value, is_value_of, value_row}
use python_diplom.PriceList.{category_named, add_product, put_product}
use python_diplom.PriceList.Presence.{has_product, has_category, has_attribute}
use python_diplom.PriceList.Frame.{Keeps}
use python_diplom.FileFormats.{Parsers, ImportRequest}
use python_diplom.Import.{import_products}
use python_diplom.Import.Frame.{KeepsLog, import_products-keeps}
use python_diplom.Integrity.{IsLinked}
use python_diplom.Integrity.Links.{Refers-append, Refers-replace}
use python_diplom.Import.LinkedTables.{
  IsLinkedFor, with_names, with_values, with_products, with_logs,
}

module _ (supplier : ℕ) (db : Db) (was : IsLinkedFor supplier db) where
  category_named-IsLinkedFor : (name : String) → IsLinkedFor supplier (category_named name db).1
  unfolding category_named insert
  category_named-IsLinkedFor name =
      elim (Option-cases (find (λ c. str_eq c.name name) db.categories.rows)) [
        | inr (c, h) ↦ rw (h, category_named) was
        | inl h ↦
            rw (h, category_named)
              (with_names supplier db was
                (insert (λ id. record { id = id; name = name; parent = none }) db.categories).1
                db.attributes
                (Refers-append (λ (p : Product). p.category) (λ (c : Category). c.id)
                  db.products.rows db.categories.rows _ was.linked.kinds)
                was.linked.named)
      ]

  attribute_named-IsLinkedFor : (name : String) → IsLinkedFor supplier (attribute_named name db).1
  unfolding attribute_named insert
  attribute_named-IsLinkedFor name =
      elim (Option-cases (find (λ a. str_eq a.name name) db.attributes.rows)) [
        | inr (a, h) ↦ rw (h, attribute_named) was
        | inl h ↦
            rw (h, attribute_named)
              (with_names supplier db was db.categories
                (insert (λ id. record { id = id; name = name }) db.attributes).1 was.linked.kinds
                (Refers-append (λ (v : ProductAttribute). v.attribute) (λ (a : Attribute). a.id)
                  db.product_attributes.rows db.attributes.rows _ was.linked.named))
      ]

  set_value-IsLinkedFor :
      (product attribute : ℕ) (value : String)
      → has_product product db ≡ true
      → has_attribute attribute db ≡ true
      → IsLinkedFor supplier (set_value product attribute value db)
  unfolding set_value insert update
  set_value-IsLinkedFor product attribute value hp ha =
      let test = is_value_of product attribute in
      let OfProduct =
        λ (v : ProductAttribute). any (λ p. p.id == v.product) db.products.rows ≡ true in
      let OfAttribute =
        λ (v : ProductAttribute). any (λ a. a.id == v.attribute) db.attributes.rows ≡ true in
      let rows = db.product_attributes.rows in
      elim (Option-cases (find test rows)) [
        | inr (v, h) ↦
            let saved = record v { value = value } in
            rw (h, set_value)
              (with_values supplier db was (update saved db.product_attributes)
                (All-replaced OfProduct saved rows
                  (All-find OfProduct test rows v was.linked.valued h) was.linked.valued)
                (All-replaced OfAttribute saved rows
                  (All-find OfAttribute test rows v was.linked.named h) was.linked.named))
        | inl h ↦
            let added = value_row product attribute value db.product_attributes.next_id in
            rw (h, set_value)
              (with_values supplier db was
                (insert (value_row product attribute value) db.product_attributes).1
                (All-append OfProduct rows (added ∷ []) was.linked.valued (hp, tt))
                (All-append OfAttribute rows (added ∷ []) was.linked.named (ha, tt)))
      ]

  add_product-IsLinkedFor :
      (p : Product)
      → p.supplier ≡ supplier
      → has_category p.category db ≡ true
      → IsLinkedFor supplier (add_product p db)
  unfolding insert
  add_product-IsLinkedFor p own kind =
      let added = record p { id = db.products.next_id } in
      with_products supplier db was (insert (λ id. record p { id = id }) db.products).1
        (All-append (λ (p : Product). any (λ s. s.id == p.supplier) db.suppliers.rows ≡ true)
          db.products.rows (added ∷ []) was.linked.sellers (rw own was.importer, tt))
        (All-append (λ (p : Product). any (λ c. c.id == p.category) db.categories.rows ≡ true)
          db.products.rows (added ∷ []) was.linked.kinds (kind, tt))
        (λ A key rows h.
          Refers-append key (λ (p : Product). p.id) rows db.products.rows (added ∷ []) h)

  put_product-IsLinkedFor :
      (p : Product)
      → p.supplier ≡ supplier
      → has_category p.category db ≡ true
      → IsLinkedFor supplier (put_product p db)
  unfolding update
  put_product-IsLinkedFor p own kind =
      with_products supplier db was (update p db.products)
        (All-replaced (λ (p : Product). any (λ s. s.id == p.supplier) db.suppliers.rows ≡ true) p
          db.products.rows (rw own was.importer) was.linked.sellers)
        (All-replaced (λ (p : Product). any (λ c. c.id == p.category) db.categories.rows ≡ true) p
          db.products.rows kind was.linked.kinds)
        (λ A key rows h. Refers-replace key rows db.products.rows p h)

IsLinkedFor-Keeps : (s : Supplier) (upd : Bool) → Keeps s upd (IsLinkedFor s.id)
IsLinkedFor-Keeps s upd = record {
  keeps_category = λ name db q. category_named-IsLinkedFor s.id db q name;
  keeps_attribute = λ name db q. attribute_named-IsLinkedFor s.id db q name;
  keeps_value = λ p a v db hp ha q. set_value-IsLinkedFor s.id db q p a v hp ha;
  keeps_add = λ p db h own kind q. add_product-IsLinkedFor s.id db q p own kind;
  keeps_put = λ p old sku db h e e' may own kind q. put_product-IsLinkedFor s.id db q p own kind;
}

log_kept : (s : Supplier) → KeepsLog s (IsLinkedFor s.id)
unfolding insert
log_kept s name t db q = with_logs s.id db q _ (
    All-append (λ (l : PriceUpdateLog). any (λ s. s.id == l.supplier) db.suppliers.rows ≡ true)
      db.logs.rows _ q.linked.importers (q.importer, tt))

module _ ⦃u : Unicode⦄ ⦃py : Python⦄ ⦃ps : Parsers⦄ where
  -- However an import ends, also if it raises: if every foreign key found its row, and no user had two
  -- profiles, this is so afterwards.
  pub import_products-IsLinked :
      (user : User) (request : ImportRequest) (db : Db)
      → IsLinked db
      → IsLinked (import_products user request db).1
  import_products-IsLinked user request db l =
      let upd = or_default true request.update_existing in
      elim (Option-cases (supplier_profile user.id db)) [
        | inl h ↦ import_products-keeps IsLinked user request db (λ s found. absurd (cc)) l
        | inr (s, h) ↦
            (import_products-keeps (IsLinkedFor s.id) user request db
              (λ s' found.
                subst (λ t. Keeps t upd (IsLinkedFor s.id) × KeepsLog t (IsLinkedFor s.id))
                  (some-injective (sym h ∙ found)) (IsLinkedFor-Keeps s upd, log_kept s))
              (record {
                linked = l;
                importer = find-any (λ t. t.user == user.id) db.suppliers.rows s h;
              })).linked
      ]
