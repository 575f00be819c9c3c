-- ===== src/Examples/Categories.antt =====
-- Examples for the theorems on categories.
use python_diplom.Base.{
  ℕ, String, ◌≡◌, ◌≢◌, ◌↔◌, refl, ap, true, false, Option, none, some, [], ◌∷◌, arith, eq_refl,
}
use python_diplom.Exn.{ok, err, http404}
use python_diplom.Text.{show, len}
use python_diplom.Table.{Table, IsWellKeyed}
use python_diplom.Models.{Db, Category, category_model}
use python_diplom.Cache.{of_category, cache_get, model_list, normalize_key, model_instance}
use python_diplom.Cache.Saves.{saved, after_steps}
use python_diplom.Categories.{
  Forest, node, nil, cons, ByName, forest_of, category_data, children_of, root_categories,
  serialized, categories_key, list_categories, retrieve_category,
}
use python_diplom.Categories.Chains.{IsStored}
use python_diplom.Categories.Forests.{mentions_in}
use python_diplom.Categories.Tree.{Rooted, serialized_roots}
use python_diplom.Categories.Cached.{later_root_hidden}
use python_diplom.Examples.{shop}
use python_diplom.Examples.OneEntry.{one_entry, one_entry-IsRedis}
use python_diplom.Examples.Services.{letters, by_length}

-- A collation that keeps the order of insertion.
instance abbrev as_inserted : ByName
as_inserted = record { sorted = λ cs. cs; sorted-All = λ P cs h. h; sorted-any = λ p cs. refl }

abbrev category : ℕ → String → Option ℕ → Category
category id name parent = record { id = id; name = name; parent = parent }

abbrev drinks : Category
drinks = category 1 "drinks" none

abbrev teas : Category
teas = category 2 "teas" (some 1)

-- Two roots below one another are a cycle.
abbrev with_cycle : Table Category
with_cycle = record {
  rows = drinks ∷ teas ∷ category 3 "left" (some 4) ∷ category 4 "right" (some 3) ∷ [];
  next_id = 5;
}

with_cycle-IsWellKeyed : IsWellKeyed with_cycle
with_cycle-IsWellKeyed = record { below = omega arith; distinct = omega arith }

serialized_roots_example :
    (ds : Forest) × (serialized 4 with_cycle (root_categories with_cycle) ≡ ok ds)
    × ((c : Category) → IsStored with_cycle c → (mentions_in c.id ds ≡ true) ↔ Rooted with_cycle c)
serialized_roots_example = serialized_roots with_cycle with_cycle-IsWellKeyed 4 (omega arith)

abbrev cyclic_shop : Db
cyclic_shop = record shop { categories = with_cycle }

abbrev shown : Forest
shown = cons (node drinks (cons (node teas nil) nil)) nil

abbrev nothing : Option (String × Forest)
nothing = none

abbrev kept : Option (String × Forest)
kept = some (categories_key, shown)

shown_is_read : serialized 4 with_cycle (root_categories with_cycle) ≡ ok shown
unfolding serialized root_categories category_data forest_of children_of
shown_is_read = refl

keys_differ : categories_key ≢ model_instance "category" 2
unfolding categories_key model_list model_instance normalize_key show letters
keys_differ h = absurd (omega (ap len h, arith))

-- The teas become a root.
abbrev later : Db
later = record shop {
  categories = record { rows = drinks ∷ category 2 "teas" none ∷ []; next_id = 3 };
}

later_root_hidden_example :
    let t =
      after_steps one_entry false of_category
        (saved 2 ∷ [])
        (list_categories one_entry 4 cyclic_shop nothing).1 in
    retrieve_category one_entry 4 2 later t ≡ (err http404, t)
unfolding cache_get root_categories
later_root_hidden_example =
    later_root_hidden one_entry one_entry-IsRedis false 4 4 2 cyclic_shop later nothing kept shown
      (saved 2 ∷ []) refl shown_is_read refl (rw (eq_refl (categories_key)) refl) (keys_differ, tt)
      refl
