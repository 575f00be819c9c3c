-- ===== src/Examples/Catalogue.antt =====
-- Examples for the theorems on the list of products.
use python_diplom.Base.{
  String, ◌≡◌, ◌≢◌, refl, ap, false, Option, none, some, List, [], ◌∷◌, arith, eq_refl,
}
use python_diplom.Exn.{Result, ok, err, attribute_error}
use python_diplom.Text.{show, len}
use python_diplom.Models.{User, Product, UserType}
use python_diplom.Cache.{
  of_product, Rows, plain_list, queryset, cache_get, product_catalog, normalize_key, model_instance,
}
use python_diplom.Uploads.{product_queryset}
use python_diplom.Catalogue.{Listing, catalog_key, list_products}
use python_diplom.Catalogue.Broken.{list_breaks}
use python_diplom.Cache.Saves.{saved, after_steps}
use python_diplom.Examples.{shop, anna, account}
use python_diplom.Examples.OneEntry.{one_entry, one_entry-IsRedis}
use python_diplom.Examples.Services.{letters, by_length, folders}

-- Neither filters nor pages.
abbrev all_of : Rows (List Product) → Result (List Product)
all_of (queryset rows) = ok rows
all_of (plain_list rows) = err attribute_error

abbrev everything : Listing
everything = record {
  filter_queryset = λ params rows. all_of rows;
  paginate = λ params rows. ok rows;
  reads_model = λ params rows. refl;
}

-- Another client.
abbrev vera : User
vera = account 4 "vera" UserType.client none

abbrev no_list : Option (String × List Product)
no_list = none

abbrev kept : Option (String × List Product)
kept = some (catalog_key anna, product_queryset anna shop)

keys_differ : catalog_key anna ≢ model_instance "product" 7
unfolding catalog_key product_catalog model_instance normalize_key show letters
keys_differ h = absurd (omega (ap len h, arith))

list_breaks_example :
    let t =
      after_steps one_entry false of_product
        (saved 7 ∷ [])
        (list_products one_entry everything anna [] shop no_list).1 in
    list_products one_entry everything vera [] shop t ≡ (err attribute_error, t)
unfolding cache_get catalog_key
list_breaks_example =
    list_breaks one_entry everything one_entry-IsRedis false anna vera [] [] shop shop no_list kept
      (saved 7 ∷ []) refl refl refl (rw (eq_refl (catalog_key anna)) refl) (keys_differ, tt)
