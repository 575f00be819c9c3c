-- ===== src/Catalogue.antt =====
-- The list of products: `get_queryset` of `ProductViewSet` in orders/backend/views.py for the action
-- `list`, and what the REST framework does with its result. The filter backend and the pagination of
-- the framework are parameters.
pub mod Broken
use python_diplom.Base.{ℕ, String, true, Option, none, some, List, map, ◌*◌, if◌then◌else◌}
use python_diplom.Exn.{Result, ok, err, ◌>>=◌, attribute_error}
use python_diplom.Models.{Db, User, Product, is_client, is_supplier}
use python_diplom.Action.{Response}
use python_diplom.Cache.{Backend, Hash, Rows, plain_list, get_or_set, product_catalog}
use python_diplom.Uploads.{Storage, product_queryset}
use python_diplom.ProductViews.{Reply, many, reply, product_view}
use python_diplom.Base.{◌≡◌}

abbrev pub Params : Type 0
Params = List (String × String)

-- `filter_queryset` and `paginate_queryset`, given the parameters of the request. With
-- `filterset_fields`, `DjangoFilterBackend` reads `queryset.model`, which a list has not.
pub record Listing : Type 0 where
  pub filter_queryset : Params → Rows (List Product) → Result (List Product)
  pub paginate : Params → List Product → Result (List Product)
  pub reads_model :
      (params : Params) (rows : List Product)
      → filter_queryset params (plain_list rows) ≡ err attribute_error

-- The key of the list that a user is shown.
unfoldable pub catalog_key : ⦃h : Hash⦄ → User → String
catalog_key user =
    product_catalog (if is_supplier user.user_type then some user.id else none) none
      (if is_client user.user_type then some true else none)

module _ ⦃h : Hash⦄ (b : Backend (List Product)) where
  -- `get_queryset` for the action `list`; the throttle of the request has stored its own entry in
  -- the state `s` already
  unfoldable pub list_queryset : User → Db → b.State → Rows (List Product) × b.State
  list_queryset user db s =
      get_or_set b (product_queryset user db) (catalog_key user) (some (60 * 10)) s

  module _ ⦃st : Storage⦄ (l : Listing) where
    -- the page of the products that pass the filters
    unfoldable pub served : Params → Db → Rows (List Product) → Result (Response Reply)
    served params db rows = do
      found ← l.filter_queryset params rows
      page ← l.paginate params found
      reply 200 (many (map (product_view db) page))

    -- `GET` on the list of products
    unfoldable pub list_products : User → Params → Db → b.State → Result (Response Reply) × b.State
    list_products user params db s =
        let (rows, s') = list_queryset user db s in (served params db rows, s')
