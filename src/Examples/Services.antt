-- ===== src/Examples/Services.antt =====
-- Examples for the theorems on the cache, on uploads and on the social login.
use python_diplom.Base.{
  ℕ, String, ◌≡◌, ◌≢◌, refl, ap, true, Option, none, some, List, [], ◌∷◌, inr, arith, eq_refl,
}
use python_diplom.Exn.{ok}
use python_diplom.Text.{show, len, all_chars}
use python_diplom.Table.{insert}
use python_diplom.Models.{
  user_model, Db, User, UserType, Product, supplier_model, product_model, image_model,
}
use python_diplom.OrderViews.{Stats, compute_stats, get_queryset}
use python_diplom.Cache.{
  is_hex, Hash, cache_get, of_product, product_catalog, normalize_key, model_instance,
  order_statistics, statistics,
}
use python_diplom.Cache.Saves.{Step, saved, elsewhere, after_steps, catalog_survives}
use python_diplom.Cache.Shared.{statistics_shared}
use python_diplom.Media.{Upload}
use python_diplom.Uploads.{
  Storage, product_queryset, get_product, may_edit, add_additional_image, add_image_to,
}
use python_diplom.Uploads.Rights.{picture_by_owner}
use python_diplom.Examples.{shop, boris, delivered_order, plain_django, account}
use python_diplom.Examples.OneEntry.{one_entry, one_entry-IsRedis}

-- A toy digest: one letter for each character.
unfoldable pub letters : String → String
letters String.[] = String.[]
letters (String.◌∷◌ c s) = String.◌∷◌ "a" (letters s)

pub letters-hex : (s : String) → all_chars is_hex (letters s) ≡ true
unfolding letters
letters-hex String.[] = refl
letters-hex (String.◌∷◌ c s) = letters-hex s

instance abbrev pub by_length : Hash
by_length = record { md5 = λ key. letters key; dumps = λ filters. "{}"; md5-hex = letters-hex }

-- A catalogue is cached under the digest of `product_catalog`.
abbrev cached : Option (String × ℕ)
cached = some (product_catalog none none none, 1)

keys_differ : product_catalog none none none ≢ model_instance "product" 7
unfolding product_catalog model_instance normalize_key show letters
keys_differ h = absurd (omega (ap len h, arith))

-- Product 7 is saved, and the cache is asked for something else.
abbrev between : List (Step (one_entry {V = ℕ}))
between = saved 7 ∷ elsewhere (λ s. s) ∷ []

catalog_survives_example :
    cache_get one_entry
      (product_catalog none none none)
      none
      (after_steps one_entry true of_product between cached)
    ≡ cache_get one_entry (product_catalog none none none) none cached
catalog_survives_example =
    catalog_survives one_entry one_entry-IsRedis true none none none between cached
      (keys_differ, ((λ s. refl), tt))

-- Another supplier, without a profile and without orders.
abbrev galina : User
galina = account 3 "galina" UserType.supplier none

abbrev nothing_cached : Option (String × Stats)
nothing_cached = none

boris_sees : get_queryset boris shop ≡ ok (delivered_order ∷ [])
unfolding get_queryset
boris_sees = refl

statistics_shared_example :
    (statistics one_entry galina shop (statistics one_entry boris shop nothing_cached).1).0
    ≡ ok (compute_stats (delivered_order ∷ []))
unfolding cache_get
statistics_shared_example =
    statistics_shared one_entry boris galina shop shop nothing_cached
      (some (order_statistics none, compute_stats (delivered_order ∷ []))) (delivered_order ∷ [])
      refl refl refl boris_sees refl (rw (eq_refl (order_statistics none)) refl)

instance abbrev pub folders : Storage
folders = record { store = λ folder f. f.name; url = λ name. name }

abbrev photo : Upload
photo = record { name = "new.png"; size = 90000000 }

queue_grows : (db db' : Db) → db.queue ≡ [] → db'.queue ≢ [] → db' ≢ db
queue_grows db db' h k e = k (rw e h)

add_image_changes : (add_additional_image boris 7 (some photo) 0 shop).1 ≢ shop
unfolding add_additional_image add_image_to get_product product_queryset may_edit insert
add_image_changes = queue_grows shop _ refl (λ e. cc)

picture_by_owner_example :
    (product : Product) × (get_product boris 7 shop ≡ ok product)
    × (may_edit boris product shop ≡ true)
picture_by_owner_example = picture_by_owner boris 7 (some photo) 0 shop (inr add_image_changes)
