-- ===== src/Categories/Cached.antt =====
-- The categories while the cache holds them.
use python_diplom.Base.{
  ℕ, zero, suc, ◌≡◌, refl, sym, ap, ◌∙◌, ◌*◌, Bool, true, false, Bool-cases, inl, inr, none, some,
  List, [], ◌∷◌, keep, any, find, All, ◌==◌, ==_iff, arith,
}
use python_diplom.Exn.{ok, err, err-ne-ok, ok-injective, http404}
use python_diplom.Table.{Table}
use python_diplom.Models.{Db, Category}
use python_diplom.Cache.{Backend, Hash, of_category, is_hex, cache_get, cache_set}
use python_diplom.Cache.Saves.{Step, after_steps, IsApart, get-after_steps}
use python_diplom.Text.{all_chars}
use python_diplom.Cache.Stale.{IsRedis, category_saved, model_list-hex}
use python_diplom.Categories.{
  CategoryData, Forest, ByName, forest_of, id_of, ids_of, category_data, serialized,
  root_categories, categories_key, category_queryset, list_categories, retrieve_category,
}
use python_diplom.Categories.Forests.{with_children-ok, forest_of-cons}

any-false-find : (p : Category → Bool) (cs : List Category) → any p cs ≡ false → find p cs ≡ none
any-false-find p [] h = refl
any-false-find p (c ∷ cs) h = elim (Bool-cases (p c)) [
  | inl b ↦ absurd (ground (arith, b))
  | inr b ↦ rw b (any-false-find p cs (rw b at h))
]

-- A selection by a test that a key fails has no row with the key.
any-keep-false :
    (q : ℕ → Bool) (k : ℕ) (cs : List Category)
    → q k ≡ false
    → any (λ c. c.id == k) (keep (λ c. q c.id) cs) ≡ false
any-keep-false q k [] h = refl
any-keep-false q k (c ∷ cs) h = elim (Bool-cases (q c.id)) [
  | inr b ↦ rw b (any-keep-false q k cs h)
  | inl b ↦ elim (Bool-cases (c.id == k)) [
    | inr e ↦ rw (b, e) (any-keep-false q k cs h)
    | inl e ↦ absurd (cc (ap q ((==_iff c.id k).0 e)))
  ]
]

categories_key-hex : ⦃h : Hash⦄ → all_chars is_hex categories_key ≡ true
unfolding categories_key
categories_key-hex = model_list-hex _ _

module _ ⦃n : ByName⦄ where
  data_id :
      (depth : ℕ) (t : Table Category) (c : Category) (d : CategoryData)
      → category_data depth t c ≡ ok d
      → id_of d ≡ c.id
  unfolding category_data
  data_id zero t c d h = absurd (err-ne-ok h)
  data_id (suc depth) t c d h = let (ds, e, shape) = with_children-ok c _ d h in rw shape refl

  ids_of-absent :
      (depth : ℕ) (t : Table Category) (k : ℕ) (cs : List Category) (ds : Forest)
      → forest_of (category_data depth t) cs ≡ ok ds
      → any (λ c. c.id == k) cs ≡ false
      → any (λ id. k == id) (ids_of ds) ≡ false
  unfolding forest_of
  ids_of-absent depth t k [] ds h a = rw (sym (ok-injective h)) refl
  ids_of-absent depth t k (c ∷ cs) ds h a =
      let (d, rest, e, e₁, shape) = forest_of-cons (category_data depth t) c cs ds h in
      let there = ids_of-absent depth t k cs rest e₁ in
      rw (shape, data_id depth t c d e) (ground (arith, there))

  module _ ⦃h : Hash⦄ (b : Backend Forest) where
    list_stores :
        (depth : ℕ) (db : Db) (s : b.State) (ds : Forest)
        → cache_get b categories_key none s ≡ none
        → serialized depth db.categories (root_categories db.categories) ≡ ok ds
        → (list_categories b depth db s).1 ≡ (cache_set b categories_key ds (some (60 * 60)) s).1
    unfolding list_categories category_queryset
    list_stores depth db s ds miss e = rw (miss, category_queryset, e) refl

    retrieve_hit :
        (depth k : ℕ) (db : Db) (s : b.State) (ds : Forest)
        → cache_get b categories_key none s ≡ some ds
        → any (λ id. k == id) (ids_of ds) ≡ false
        → retrieve_category b depth k db s ≡ (err http404, s)
    unfolding retrieve_category category_queryset
    retrieve_hit depth k db s ds hit absent =
        let gone =
          any-false-find (λ c. c.id == k) _
            (n.sorted-any (λ c. c.id == k)
                (keep (λ c. any (λ id. c.id == id) (ids_of ds)) db.categories.rows)
              ∙ any-keep-false (λ j. any (λ id. j == id) (ids_of ds)) k db.categories.rows
                  absent) in
        rw (hit, category_queryset, gone) refl

    -- After the categories have been asked for when they were not in the cache, and could be stored,
    -- a category that was no root then is not found before the entry expires, also when it is stored
    -- later or made a root, however many categories are saved in between, and whether or not the
    -- receiver runs that means to delete the list, if the digest of the list differs from those of
    -- the saved categories, and what else changes the cache leaves this key. The cache stays as it is.
    pub later_root_hidden :
        (redis : IsRedis b) (connected : Bool) (depth depth' k : ℕ) (db db' : Db) (s s' : b.State)
        (ds : Forest) (steps : List (Step b))
        → cache_get b categories_key none s ≡ none
        → serialized depth db.categories (root_categories db.categories) ≡ ok ds
        → b.set categories_key ds (some (60 * 60)) s ≡ (ok tt, s')
        → b.get categories_key s' ≡ ok (some ds)
        → All (IsApart b connected of_category categories_key) steps
        → any (λ c. c.id == k) (root_categories db.categories) ≡ false
        → let t = after_steps b connected of_category steps (list_categories b depth db s).1 in
          retrieve_category b depth' k db' t ≡ (err http404, t)
    unfolding serialized cache_set cache_get
    later_root_hidden redis connected depth depth' k db db' s s' ds steps miss e stored found apart
          absent =
        let kept =
          get-after_steps b connected of_category categories_key steps s'
            (category_saved b redis categories_key categories_key-hex) apart in
        rw (list_stores depth db s ds miss e, cache_set, stored)
          (retrieve_hit depth' k db' (after_steps b connected of_category steps s') ds
            (rw (kept, found, cache_get) refl)
            (ids_of-absent depth db.categories k (root_categories db.categories) ds e absent))
