-- ===== src/Cache/Shared.antt =====
-- The statistics that a supplier is shown.
use python_diplom.Base.{ℕ, String, ◌≡◌, refl, Option, none, some, List, ◌*◌}
use python_diplom.Exn.{ok}
use python_diplom.Models.{Db, User, Order, UserType}
use python_diplom.OrderViews.{get_queryset, Stats, compute_stats}
use python_diplom.Cache.{
  Backend, Hash, cache_get, cache_set, order_statistics, statistics, statistics_key,
}

module _ {V : Type 0} (b : Backend V) where
  pub stored_found :
      (key : String) (v : V) (timeout : Option ℕ) (s s' : b.State)
      → b.set key v timeout s ≡ (ok tt, s')
      → b.get key s' ≡ ok (some v)
      → cache_get b key none (cache_set b key v timeout s).1 ≡ some v
  unfolding cache_get cache_set
  stored_found key v timeout s s' stored found = rw (stored, cache_set, found, cache_get) refl

module _ ⦃h : Hash⦄ (b : Backend Stats) where
  supplier_key :
      (user : User)
      → user.user_type ≡ UserType.supplier
      → statistics_key user ≡ order_statistics none
  supplier_key user h = rw h refl

  statistics_hit :
      (user : User) (db : Db) (s : b.State) (v : Stats)
      → cache_get b (statistics_key user) none s ≡ some v
      → (statistics b user db s).0 ≡ ok v
  unfolding statistics
  statistics_hit user db s v h = rw (h, statistics) refl

  statistics_miss :
      (user : User) (db : Db) (s : b.State) (orders : List Order)
      → cache_get b (statistics_key user) none s ≡ none
      → get_queryset user db ≡ ok orders
      → (statistics b user db s).1
        ≡ (cache_set b (statistics_key user) (compute_stats orders) (some (60 * 2)) s).1
  unfolding statistics
  statistics_miss user db s orders h g = rw (h, g, statistics) refl

  -- After one supplier has asked for statistics that were not in the cache, and these could be
  -- stored, every other supplier is shown them too: the totals and the recent orders of the first
  -- supplier, whatever orders the other one has.
  pub statistics_shared :
      (first second : User) (db db' : Db) (s s' : b.State) (orders : List Order)
      → first.user_type ≡ UserType.supplier
      → second.user_type ≡ UserType.supplier
      → cache_get b (order_statistics none) none s ≡ none
      → get_queryset first db ≡ ok orders
      → b.set (order_statistics none) (compute_stats orders) (some (60 * 2)) s ≡ (ok tt, s')
      → b.get (order_statistics none) s' ≡ ok (some (compute_stats orders))
      → (statistics b second db' (statistics b first db s).1).0 ≡ ok (compute_stats orders)
  statistics_shared first second db db' s s' orders f g miss seen stored found =
      let kf = supplier_key first f in
      let kg = supplier_key second g in
      rw (statistics_miss first db s orders (rw kf miss) seen) (
        statistics_hit second db' _ (compute_stats orders) (
          rw (kf, kg)
            (stored_found b (order_statistics none) (compute_stats orders) (some (60 * 2)) s s'
              stored found)))
