-- ===== src/Cache.antt =====
-- The cache: `CacheKeyBuilder`, `CacheManager`, `QuerySetCache` and the invalidation of
-- orders/backend/cache_utils.py, the receivers of orders/backend/signals.py, and `statistics` of
-- `OrderViewSet` in orders/backend/views.py. `django_redis` and MD5 are parameters.
pub mod Stale
pub mod Shared
pub mod Saves
use Prim.Native.String
use python_diplom.Base.{
  ℕ, ◌+◌, ◌*◌, Char, code, String, Bool, true, false, ◌&&◌, ◌||◌, Option, none, some, List, [], ◌∷◌,
  ◌==◌, leb, str_eq, ◌≡◌, if◌then◌else◌,
}
use python_diplom.Exn.{Exn, Result, ok, err}
use python_diplom.Text.{show, all_chars}
use python_diplom.Models.{Db, User, Order, is_supplier}
use python_diplom.OrderViews.{get_queryset, Stats, compute_stats}

-- `django.core.cache.cache` for values of type `V`. `get` returns `none` for a missing key; a
-- timeout `none` is `DEFAULT_TIMEOUT`. Time does not pass here: entries do not expire. A call that raises may leave any state.
pub record Backend (V : Type 0) : Type 1 where
  pub State : Type 0
  pub get : String → State → Result (Option V)
  pub set : String → V → Option ℕ → State → Result (Unit {0}) × State
  pub delete : String → State → Result (Unit {0}) × State
  pub keys : String → State → Result (List String)
  pub clear : State → Result (Unit {0}) × State

-- A character of a hexadecimal digest.
abbrev pub is_hex : Char → Bool
is_hex c = leb 48 (code c) && leb (code c) 57 || (leb 97 (code c) && leb (code c) 102)

-- `hashlib.md5(key.encode()).hexdigest()`, which is written in hexadecimal digits, and
-- `json.dumps(filters, sort_keys=True)`
pub record Hash : Type 0 where
  pub md5 : String → String
  pub dumps : List (String × String) → String
  pub md5-hex : (key : String) → all_chars is_hex (md5 key) ≡ true

-- `base + ":name:" + str(id)`, if the id is given and not zero
abbrev pub with_id : String → String → Option ℕ → String
with_id base name none = base
with_id base name (some id) =
    if id == 0 then base else String.◌++◌ base (String.◌++◌ name (show id))

-- `if filters: base += ":" + filter_str`
abbrev pub with_filters : ⦃h : Hash⦄ → String → List (String × String) → String
with_filters base [] = base
with_filters ⦃h⦄ base (f ∷ fs) = String.◌++◌ base (String.◌++◌ ":" (h.dumps (f ∷ fs)))

abbrev pub with_active : String → Option Bool → String
with_active base none = base
with_active base (some true) = String.◌++◌ base ":active:True"
with_active base (some false) = String.◌++◌ base ":active:False"

module _ ⦃h : Hash⦄ where
  -- `_normalize_key`
  unfoldable pub normalize_key : String → String
  normalize_key key = h.md5 key

  unfoldable pub model_list : String → List (String × String) → String
  model_list model filters = normalize_key (with_filters (String.◌++◌ "model_list:" model) filters)

  unfoldable pub model_instance : String → ℕ → String
  model_instance model pk =
      normalize_key (String.◌++◌ "model:" (String.◌++◌ model (String.◌++◌ ":pk:" (show pk))))

  pub model_count : String → List (String × String) → String
  model_count model filters =
      normalize_key (with_filters (String.◌++◌ "model_count:" model) filters)

  pub user_data : ℕ → String
  user_data user = normalize_key (String.◌++◌ "user:" (show user))

  pub order_statistics : Option ℕ → String
  order_statistics user = normalize_key (with_id "order_statistics" ":user:" user)

  unfoldable pub product_catalog : Option ℕ → Option ℕ → Option Bool → String
  product_catalog supplier category active = normalize_key (
      with_active (with_id (with_id "product_catalog" ":supplier:" supplier) ":category:" category)
        active)

-- What `get_or_set` hands out: a queryset, or the list that the cache has kept of one.
pub data Rows (V : Type 0) : Type 0 where
  queryset plain_list : V → Rows V

module _ {V : Type 0} (b : Backend V) where
  -- `CacheManager.get`
  unfoldable pub cache_get : String → Option V → b.State → Option V
  cache_get key default s = elim (b.get key s) [
    | ok (some v) ↦ some v
    | ok none ↦ default
    | err e ↦ default
  ]

  -- `try: …; return True` and `except Exception: return False`
  abbrev pub reported : Result (Unit {0}) × b.State → Bool × b.State
  reported (ok _, s) = (true, s)
  reported (err e, s) = (false, s)

  -- `CacheManager.set`
  unfoldable pub cache_set : String → V → Option ℕ → b.State → Bool × b.State
  cache_set key v timeout s = reported (b.set key v timeout s)

  -- `CacheManager.delete`
  unfoldable pub cache_delete : String → b.State → Bool × b.State
  cache_delete key s = reported (b.delete key s)

  -- the loop of `delete_pattern`, with `count` so far
  unfoldable pub delete_keys : List String → ℕ → b.State → ℕ × b.State
  delete_keys [] count s = (count, s)
  delete_keys (key ∷ rest) count s =
      (let (r, s') = b.delete key s in
        elim r [ ok _ ↦ delete_keys rest (count + 1) s' | err e ↦ (0, s') ])

  -- `CacheManager.delete_pattern`
  unfoldable pub delete_pattern : String → b.State → ℕ × b.State
  unfolding delete_keys
  delete_pattern pattern s = elim (b.keys pattern s) [
    | ok found ↦ delete_keys found 0 s
    | err e ↦ (0, s)
  ]

  -- `CacheManager.clear`
  pub cache_clear : b.State → Bool × b.State
  cache_clear s = reported (b.clear s)

  -- `QuerySetCache.get_or_set`: `rows` is what the queryset yields
  unfoldable pub get_or_set : V → String → Option ℕ → b.State → Rows V × b.State
  get_or_set rows key timeout s = elim (cache_get key none s) [
    | some cached ↦ (plain_list cached, s)
    | none ↦ (queryset rows, (cache_set key rows timeout s).1)
  ]

module _ ⦃h : Hash⦄ {V : Type 0} (b : Backend V) where
  -- The wrapper of `cache_model_method` for a call of a method: `name` is `func_name`, such as
  -- `Product.total`, `arguments` is `key_args`, the text of the arguments after the instance, and
  -- `result` is what the method returns.
  pub cached_method : String → String → ℕ → V → b.State → V × b.State
  unfolding cache_get cache_set normalize_key
  cached_method name arguments timeout result s =
      let key = normalize_key (String.◌++◌ name (String.◌++◌ ":" arguments)) in
      elim (cache_get b key none s) [
        | some cached ↦ (cached, s)
        | none ↦ (result, (cache_set b key result (some timeout) s).1)
      ]

-- The senders that orders/backend/signals.py names, with `client_id` of an order.
pub data Sender : Type 0 where
  of_user of_product of_category : Sender
  of_order : Option ℕ → Sender

-- `sender.__name__.lower()`
abbrev pub sender_name : Sender → String
sender_name of_user = "user"
sender_name of_product = "product"
sender_name of_category = "category"
sender_name (of_order client) = "order"

-- The glob `*word*`.
abbrev pub around : String → String
around word = String.◌++◌ "*" (String.◌++◌ word "*")

module _ {V : Type 0} ⦃h : Hash⦄ (b : Backend V) where
  -- `invalidate_cache_on_delete`, with which `invalidate_cache_on_save` begins
  unfoldable pub invalidate_cache_on_delete : Sender → ℕ → b.State → b.State
  invalidate_cache_on_delete sender pk s =
      let s₁ = (cache_delete b (model_instance (sender_name sender) pk) s).1 in
      (delete_pattern b (around (String.◌++◌ "model_list:" (sender_name sender))) s₁).1

  -- what is special about the model
  unfoldable pub invalidate_related : Sender → ℕ → b.State → b.State
  invalidate_related of_product pk s = (delete_pattern b (around "product_catalog") s).1
  invalidate_related (of_order none) pk s = (delete_pattern b (around "order_statistics") s).1
  invalidate_related (of_order (some client)) pk s =
      let s₁ = (delete_pattern b (around "order_statistics") s).1 in
      if client == 0 then s₁ else (cache_delete b (order_statistics (some client)) s₁).1
  invalidate_related of_user pk s = (cache_delete b (user_data pk) s).1
  invalidate_related of_category pk s = s

  -- `invalidate_cache_on_save`
  unfoldable pub invalidate_cache_on_save : Sender → ℕ → b.State → b.State
  invalidate_cache_on_save sender pk s =
      invalidate_related sender pk (invalidate_cache_on_delete sender pk s)

-- `OrderViewSet.statistics`: all suppliers have one key
abbrev pub statistics_key : ⦃h : Hash⦄ → User → String
statistics_key user =
    if is_supplier user.user_type then order_statistics none else order_statistics (some user.id)

module _ ⦃h : Hash⦄ (b : Backend Stats) where
  unfoldable pub statistics : User → Db → b.State → Result Stats × b.State
  unfolding cache_get cache_set get_queryset
  statistics user db s = elim (cache_get b (statistics_key user) none s) [
    | some cached ↦ (ok cached, s)
    | none ↦ elim (get_queryset user db) [
      | err e ↦ (err e, s)
      | ok orders ↦ (
        ok (compute_stats orders),
        (cache_set b (statistics_key user) (compute_stats orders) (some (60 * 2)) s).1,
      )
    ]
  ]
