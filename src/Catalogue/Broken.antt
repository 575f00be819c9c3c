-- ===== src/Catalogue/Broken.antt =====
-- The list of products while the cache holds it.
use python_diplom.Base.{Bool, true, ◌≡◌, refl, ◌*◌, none, some, List, All}
use python_diplom.Exn.{ok, err, attribute_error}
use python_diplom.Models.{Db, User, Product}
use python_diplom.Cache.{
  Backend, Hash, queryset, get_or_set, cache_get, cache_set, is_hex, of_product,
}
use python_diplom.Text.{all_chars}
use python_diplom.Cache.Stale.{IsRedis, product_saved, product_catalog-hex}
use python_diplom.Uploads.{Storage, product_queryset}
use python_diplom.Cache.Saves.{Step, after_steps, IsApart, get-after_steps}
use python_diplom.Catalogue.{Params, Listing, catalog_key, list_queryset, served, list_products}

catalog_key-hex : ⦃h : Hash⦄ → (user : User) → all_chars is_hex (catalog_key user) ≡ true
unfolding catalog_key
catalog_key-hex user = product_catalog-hex _ _ _

module _ ⦃h : Hash⦄ (b : Backend (List Product)) where
  module _ ⦃st : Storage⦄ (l : Listing) where
    list_hit :
        (user : User) (params : Params) (db : Db) (s : b.State) (rows : List Product)
        → cache_get b (catalog_key user) none s ≡ some rows
        → list_products b l user params db s ≡ (err attribute_error, s)
    unfolding list_products list_queryset get_or_set served
    list_hit user params db s rows hit = rw (hit, get_or_set, l.reads_model params rows) refl

    list_miss :
        (user : User) (params : Params) (db : Db) (s : b.State)
        → cache_get b (catalog_key user) none s ≡ none
        → list_products b l user params db s ≡ (
          served b l params db (queryset (product_queryset user db)),
          (cache_set b (catalog_key user) (product_queryset user db) (some (60 * 10)) s).1,
        )
    unfolding list_products list_queryset get_or_set
    list_miss user params db s miss = rw (miss, get_or_set) refl

    -- After the list has been asked for when it was not in the cache, and could be stored, whoever
    -- is shown the same list before the entry expires gets an `AttributeError`, whatever parameters
    -- are sent, however many products are saved in between, and whether or not the receiver runs
    -- that means to delete it, if the digest of the list differs from those of the saved products,
    -- and what else changes the cache leaves this key. The cache stays as it is.
    pub list_breaks :
        (redis : IsRedis b) (connected : Bool) (first second : User) (params params' : Params)
        (db db' : Db) (s s' : b.State) (steps : List (Step b))
        → catalog_key second ≡ catalog_key first
        → cache_get b (catalog_key first) none s ≡ none
        → b.set (catalog_key first) (product_queryset first db) (some (60 * 10)) s ≡ (ok tt, s')
        → b.get (catalog_key first) s' ≡ ok (some (product_queryset first db))
        → All (IsApart b connected of_product (catalog_key first)) steps
        → let t =
            after_steps b connected of_product steps (list_products b l first params db s).1 in
          list_products b l second params' db' t ≡ (err attribute_error, t)
    unfolding cache_set cache_get
    list_breaks redis connected first second params params' db db' s s' steps same miss stored found
          apart =
        let kept =
          get-after_steps b connected of_product (catalog_key first) steps s'
            (product_saved b redis (catalog_key first) (catalog_key-hex first)) apart in
        rw (list_miss first params db s miss, cache_set, stored)
          (list_hit second params' db' (after_steps b connected of_product steps s')
            (product_queryset first db) (rw (same, kept, found, cache_get) refl))
