-- ===== src/Throttling.antt =====
-- The throttles: the classes of orders/backend/throttling.py with their rates in
-- orders/orders/settings.py, and which of them the views of orders/backend/views.py ask. The
-- algorithm of `SimpleRateThrottle` and its keys are parameters, as the REST framework has them.
pub mod Bounds
use python_diplom.Base.{
  ℕ, ◌+◌, ◌*◌, ◌≤◌, ◌<◌, ◌≡◌, String, Bool, true, false, Option, none, some, List, [], ◌∷◌, keep,
  length, ltb, if◌then◌else◌,
}
use python_diplom.Text.{show}
use python_diplom.Models.{User, is_supplier}

pub data Throttle : Type 0 where
  -- the framework's `AnonRateThrottle` and `UserRateThrottle`
  anon user : Throttle
  login register product_list order_create burst sustained : Throttle

-- The caller of a request: a user, or an address.
pub data Caller : Type 0 where
  member : User → Caller
  guest : String → Caller

-- `scope`; the last two classes inherit that of `UserRateThrottle`
unfoldable pub scope : Throttle → String
scope anon = "anon"
scope login = "login"
scope register = "register"
scope product_list = "product_list"
scope order_create = "order_create"
scope _ = "user"

-- `DEFAULT_THROTTLE_RATES`, and `rate` of the last two classes: how many requests in how many seconds
unfoldable pub rate : Throttle → ℕ × ℕ
rate anon = (100, 60 * 60)
rate user = (1000, 60 * 60)
rate login = (5, 60)
rate register = (10, 60 * 60)
rate product_list = (60, 60)
rate order_create = (20, 60 * 60)
rate burst = (10, 1)
rate sustained = (1000, 60 * 60)

-- `num_requests` and `duration` of a request: `ProductListRateThrottle.allow_request` sets them for a
-- supplier
unfoldable pub limit_of : Throttle → Caller → ℕ × ℕ
unfolding rate
limit_of product_list (member u) = if is_supplier u.user_type then (120, 60) else rate product_list
limit_of throttle caller = rate throttle

-- The times that are less than `duration` ago.
abbrev pub within : ℕ → ℕ → List ℕ → List ℕ
within duration now times = keep (λ t. ltb now (t + duration)) times

-- The framework: `cache_format` filled in, `get_cache_key` of its two classes for a scope, and
-- `allow_request` with the key, the limits and the time, which keeps the times of the requests that it
-- has let through, newest first.
pub record Framework : Type 1 where
  pub format_key : String → String → String
  pub anon_key : String → Caller → Option String
  pub user_key : String → Caller → Option String
  pub State : Type 0
  pub history : String → State → List ℕ
  pub allow : String → ℕ → ℕ → ℕ → State → Bool × State
  pub grants :
      (key : String) (num duration now : ℕ) (s : State)
      → length (within duration now (history key s)) < num
      → ((allow key num duration now s).0 ≡ true)
        × (history key (allow key num duration now s).1 ≡ now ∷ within duration now (history key s))
  pub refuses :
      (key : String) (num duration now : ℕ) (s : State)
      → num ≤ length (within duration now (history key s))
      → ((allow key num duration now s).0 ≡ false)
        × (history key (allow key num duration now s).1 ≡ history key s)

-- `request.user.pk` of a user, and the address otherwise
abbrev pub ident : Caller → String
ident (member u) = show u.id
ident (guest address) = address

module _ (f : Framework) where
  -- `get_cache_key`; without a key a request is let through
  unfoldable pub cache_key : Throttle → Caller → Option String
  unfolding scope
  cache_key burst caller = some (f.format_key (scope burst) (ident caller))
  cache_key sustained caller = some (f.format_key (scope sustained) (ident caller))
  cache_key anon caller = f.anon_key (scope anon) caller
  cache_key register caller = f.anon_key (scope register) caller
  cache_key throttle caller = f.user_key (scope throttle) caller

  -- `allow_request`
  unfoldable pub allow_request : Throttle → Caller → ℕ → f.State → Bool × f.State
  unfolding limit_of cache_key
  allow_request throttle caller now s = elim (cache_key throttle caller) [
    | none ↦ (true, s)
    | some key ↦ let (num, duration) = limit_of throttle caller in f.allow key num duration now s
  ]

-- The actions that have throttles of their own.
pub data Endpoint : Type 0 where
  login_action register_action products_action create_order_action other_action : Endpoint

-- `throttle_classes`, `get_throttles` of `OrderViewSet`, and `DEFAULT_THROTTLE_CLASSES`
pub throttles : Endpoint → List Throttle
throttles login_action = login ∷ []
throttles register_action = register ∷ []
throttles products_action = product_list ∷ []
throttles create_order_action = order_create ∷ []
throttles other_action = anon ∷ user ∷ []
