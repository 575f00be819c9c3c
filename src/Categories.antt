-- ===== src/Categories.antt =====
-- The categories of products: `CategorySerializer` of orders/backend/serializers.py, which shows a
-- category with the tree below it, and the cached views of `CategoryViewSet` in
-- orders/backend/views.py. A request carries no parameters.
pub mod Cached
pub mod Chains
pub mod Forests
pub mod Tree
use python_diplom.Base.{
  ℕ, zero, suc, ◌≡◌, ◌*◌, String, Bool, true, false, not, ◌||◌, Option, none, some, List, [], ◌∷◌,
  keep, any, find, take, All, is_some, ◌==◌,
}
use python_diplom.Exn.{Result, ok, err, ◌>>=◌, recursion_error, or_raise, http404}
use python_diplom.Table.{Table}
use python_diplom.Models.{Db, Category, category_model}
use python_diplom.Cache.{Backend, Hash, cache_get, cache_set, model_list}

-- A category with its `children`.
mutual
  pub data CategoryData : Type 0 where
    node : Category → Forest → CategoryData

  pub data Forest : Type 0 where
    nil : Forest
    cons : CategoryData → Forest → Forest

-- `ORDER BY name` in the order that the database has for texts: the same rows.
pub record ByName : Type 1 where
  pub sorted : List Category → List Category
  pub sorted-All : (P : Category → Type 0) (cs : List Category) → All P cs → All P (sorted cs)
  pub sorted-any : (p : Category → Bool) (cs : List Category) → any p (sorted cs) ≡ any p cs

abbrev pub is_child : ℕ → Category → Bool
is_child parent c = elim c.parent [ none ↦ false | some p ↦ p == parent ]

-- `[CategorySerializer(c).data for c in cs]`, with `one` for the serializer
unfoldable pub forest_of : (Category → Result CategoryData) → List Category → Result Forest
forest_of one [] = ok nil
forest_of one (c ∷ cs) = do d ← one c; ds ← forest_of one cs; ok (cons d ds)

abbrev pub with_children : Category → Result Forest → Result CategoryData
with_children c (ok ds) = ok (node c ds)
with_children c (err e) = err e

module _ ⦃n : ByName⦄ where
  -- `obj.children.all()`
  unfoldable pub children_of : Table Category → ℕ → List Category
  children_of t parent = n.sorted (keep (is_child parent) t.rows)

  -- `Category.objects.filter(parent__isnull=True)`
  unfoldable pub root_categories : Table Category → List Category
  root_categories t = n.sorted (keep (λ c. not (is_some c.parent)) t.rows)

  -- `CategorySerializer(category).data` with `get_children`; `depth` is how many categories below one
  -- another the recursion limit of Python leaves room for.
  unfoldable pub category_data : ℕ → Table Category → Category → Result CategoryData
  category_data zero t c = err recursion_error
  category_data (suc depth) t c =
      with_children c (forest_of (category_data depth t) (children_of t c.id))

  -- `CategorySerializer(queryset, many=True).data`
  unfoldable pub serialized : ℕ → Table Category → List Category → Result Forest
  serialized depth t cs = forest_of (category_data depth t) cs

abbrev pub id_of : CategoryData → ℕ
id_of (node c ds) = c.id

-- `[c['id'] for c in cached]`
abbrev pub ids_of : Forest → List ℕ
ids_of nil = []
ids_of (cons d ds) = id_of d ∷ ids_of ds

-- `REST_FRAMEWORK['PAGE_SIZE']`
abbrev pub page_size : ℕ
page_size = 20

-- `CacheKeyBuilder.model_list('category', {'parent__isnull': True})`
unfoldable pub categories_key : ⦃h : Hash⦄ → String
categories_key = model_list "category" (("parent__isnull", "true") ∷ [])

module _ ⦃n : ByName⦄ ⦃h : Hash⦄ (b : Backend Forest) where
  -- `get_queryset`, with the categories that have been serialized for the cache
  abbrev pub stored_roots :
      Table Category → Result Forest → b.State → Result (List Category) × b.State
  stored_roots t (err e) s = (err e, s)
  stored_roots t (ok ds) s =
      (ok (root_categories t), (cache_set b categories_key ds (some (60 * 60)) s).1)

  -- `get_queryset`
  unfoldable pub category_queryset : ℕ → Db → b.State → Result (List Category) × b.State
  category_queryset depth db s = elim (cache_get b categories_key none s) [
    | some cached ↦
        (ok (n.sorted (keep (λ c. any (λ id. c.id == id) (ids_of cached)) db.categories.rows)), s)
    | none ↦
        stored_roots db.categories (serialized depth db.categories (root_categories db.categories))
          s
  ]

  -- `GET` on the list of categories: the first page
  unfoldable pub list_categories : ℕ → Db → b.State → Result Forest × b.State
  list_categories depth db s =
      let (found, s') = category_queryset depth db s in
      (found >>= λ cs. serialized depth db.categories (take page_size cs), s')

  -- `GET` on one category
  unfoldable pub retrieve_category : ℕ → ℕ → Db → b.State → Result CategoryData × b.State
  retrieve_category depth pk db s =
      let (found, s') = category_queryset depth db s in
      (
        found >>= λ cs.
            or_raise (find (λ c. c.id == pk) cs) http404 >>= category_data depth db.categories,
        s',
      )
