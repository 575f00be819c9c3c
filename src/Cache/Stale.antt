-- ===== src/Cache/Stale.antt =====
-- Keys that are digests, and deleting by pattern.
use python_diplom.Text.Split.{starts_with, contains}
use Prim.Native.String.{[], ◌∷◌}
use python_diplom.Base.{
  Char, code, String, ◌≡◌, ◌≢◌, refl, ◌∙◌, inl, inr, Bool, true, false, not, ◌||◌, List, All, ◌==◌,
  ◌+◌, arith, ℕ, Option,
}
use python_diplom.Exn.{ok, Result-cases}
use python_diplom.Text.{all_chars, any_char}
use mathlib.Core.Path.{subst}
use python_diplom.Cache.{
  is_hex, normalize_key, model_list, sender_name, Sender, product_catalog, model_instance,
  of_product, of_category, invalidate_cache_on_delete, invalidate_related, invalidate_cache_on_save,
  Backend, around, delete_pattern, Result, cache_delete, delete_keys, reported, err, Hash,
}

-- The characters that mean something in a glob.
abbrev pub is_special : Char → Bool
is_special c =
    (code c == b'*') || (code c == b'?') || (code c == 91) || (code c == 92) || (code c == 93)

-- What the documentation of `django_redis` says of the calls: `keys` lists keys that match the
-- pattern, and `delete` of a key leaves what the other keys hold.
pub record IsRedis {V : Type 0} (b : Backend V) : Type 0 where
  pub keys-contain :
      (w : String) (s : b.State) (ks : List String)
      → any_char is_special w ≡ false
      → b.keys (around w) s ≡ ok ks
      → All (λ k. contains w k ≡ true) ks
  pub get-delete_ne : (k j : String) (s : b.State) → k ≢ j → b.get k (b.delete j s).1 ≡ b.get k s

starts_with-hex :
    (w s : String)
    → starts_with w s ≡ true
    → all_chars is_hex s ≡ true
    → any_char (λ c. not (is_hex c)) w ≡ false
starts_with-hex [] s h k = refl
starts_with-hex (c ∷ w) [] h k = ground arith
starts_with-hex (c ∷ w) (d ∷ s) h k = ground (arith, starts_with-hex w s)

contains-hex :
    (w s : String)
    → contains w s ≡ true
    → all_chars is_hex s ≡ true
    → any_char (λ c. not (is_hex c)) w ≡ false
contains-hex [] s h k = refl
contains-hex (c ∷ w) [] h k = ground arith
contains-hex (c ∷ w) (d ∷ s) h k =
    ground (arith, starts_with-hex (c ∷ w) (d ∷ s), contains-hex (c ∷ w) s)

module _ {V : Type 0} (b : Backend V) where
  reported-state : (r : Result (Unit {0}) × b.State) → (reported b r).1 ≡ r.1
  reported-state (ok _, s) = refl
  reported-state (err e, s) = refl

  pub get-cache_delete :
      (redis : IsRedis b) (key j : String) (s : b.State)
      → key ≢ j
      → b.get key (cache_delete b j s).1 ≡ b.get key s
  unfolding cache_delete
  get-cache_delete redis key j s ne =
      rw (reported-state (b.delete j s)) (redis.get-delete_ne key j s ne)

  -- A word with a character outside 0-9 and a-f is in no digest.
  not_digest :
      (w key j : String)
      → any_char (λ c. not (is_hex c)) w ≡ true
      → all_chars is_hex key ≡ true
      → contains w j ≡ true
      → key ≢ j
  not_digest w key j odd hex found e =
      absurd (ground (arith, contains-hex w j found (subst (λ k. all_chars is_hex k ≡ true) e hex)))

  others :
      (w key : String) (ks : List String)
      → any_char (λ c. not (is_hex c)) w ≡ true
      → all_chars is_hex key ≡ true
      → All (λ k. contains w k ≡ true) ks
      → All (λ k. key ≢ k) ks
  others w key List.[] odd hex h = tt
  others w key (List.◌∷◌ k ks) odd hex h =
      (not_digest w key k odd hex h.0, others w key ks odd hex h.1)

  get-delete_keys :
      (redis : IsRedis b) (key : String) (ks : List String) (count : ℕ) (s : b.State)
      → All (λ k. key ≢ k) ks
      → b.get key (delete_keys b ks count s).1 ≡ b.get key s
  unfolding delete_keys
  get-delete_keys redis key List.[] count s ne = refl
  get-delete_keys redis key (List.◌∷◌ k ks) count s ne = elim (Result-cases (b.delete k s).0) [
    | inr (e, h) ↦ rw (h, delete_keys) (redis.get-delete_ne key k s ne.0)
    | inl (x, h) ↦
        rw (h, delete_keys)
          (get-delete_keys redis key ks (count + 1) (b.delete k s).1 ne.1
            ∙ redis.get-delete_ne key k s ne.0)
  ]

  -- Deleting by such a word leaves what is stored under a digest.
  pub get-delete_pattern :
      (redis : IsRedis b) (w key : String) (s : b.State)
      → any_char is_special w ≡ false
      → any_char (λ c. not (is_hex c)) w ≡ true
      → all_chars is_hex key ≡ true
      → b.get key (delete_pattern b (around w) s).1 ≡ b.get key s
  unfolding delete_pattern
  get-delete_pattern redis w key s plain odd hex = elim (Result-cases (b.keys (around w) s)) [
    | inr (e, h) ↦ rw (h, delete_pattern) refl
    | inl (ks, h) ↦
        rw (h, delete_pattern)
          (get-delete_keys redis key ks 0 s
            (others w key ks odd hex (redis.keys-contain w s ks plain h)))
  ]

  module _ ⦃h : Hash⦄ where
    -- The receiver for the sender leaves what is stored under the key, unless it is that of the row.
    abbrev pub IsSpared : Sender → String → Type 0
    IsSpared sender key =
        (pk : ℕ) (s : b.State)
        → key ≢ model_instance (sender_name sender) pk
        → b.get key (invalidate_cache_on_save b sender pk s) ≡ b.get key s

    pub product_saved :
        (redis : IsRedis b) (key : String) → all_chars is_hex key ≡ true → IsSpared of_product key
    unfolding invalidate_cache_on_save invalidate_cache_on_delete invalidate_related
    product_saved redis key hex pk s ne =
        let s₁ = (cache_delete b (model_instance "product" pk) s).1 in
        let s₂ = (delete_pattern b (around "model_list:product") s₁).1 in
        get-delete_pattern redis "product_catalog" key s₂ refl refl hex
        ∙ get-delete_pattern redis "model_list:product" key s₁ refl refl hex
        ∙ get-cache_delete redis key (model_instance "product" pk) s ne

    pub category_saved :
        (redis : IsRedis b) (key : String) → all_chars is_hex key ≡ true → IsSpared of_category key
    unfolding invalidate_cache_on_save invalidate_cache_on_delete invalidate_related
    category_saved redis key hex pk s ne =
        let s₁ = (cache_delete b (model_instance "category" pk) s).1 in
        get-delete_pattern redis "model_list:category" key s₁ refl refl hex
        ∙ get-cache_delete redis key (model_instance "category" pk) s ne

pub normalize_key-hex : ⦃h : Hash⦄ → (key : String) → all_chars is_hex (normalize_key key) ≡ true
unfolding normalize_key
normalize_key-hex ⦃h⦄ key = h.md5-hex key

pub product_catalog-hex :
    ⦃h : Hash⦄
    → (supplier category : Option ℕ) (active : Option Bool)
    → all_chars is_hex (product_catalog supplier category active) ≡ true
unfolding product_catalog
product_catalog-hex supplier category active = normalize_key-hex _

pub model_list-hex :
    ⦃h : Hash⦄
    → (model : String) (filters : List (String × String))
    → all_chars is_hex (model_list model filters) ≡ true
unfolding model_list
model_list-hex model filters = normalize_key-hex _
