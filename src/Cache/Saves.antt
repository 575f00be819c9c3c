-- ===== src/Cache/Saves.antt =====
-- What stays in the cache while rows are saved and other keys are written.
use python_diplom.Base.{
  ℕ, String, Bool, true, false, Option, ◌≡◌, ◌≢◌, refl, ◌∙◌, none, List, [], ◌∷◌, All,
}
use python_diplom.Cache.{
  Backend, Hash, Sender, sender_name, of_product, cache_get, model_instance, product_catalog,
  invalidate_cache_on_save,
}
use python_diplom.Cache.Stale.{IsRedis, IsSpared, product_saved, product_catalog-hex}

-- What happens between two requests: a row is saved, or the cache is changed otherwise, as by the
-- throttles of the REST framework, which keep entries of their own in the same cache.
pub data Step {V : Type 0} (b : Backend V) : Type 0 where
  saved : ℕ → Step b
  elsewhere : (b.State → b.State) → Step b

module _ ⦃h : Hash⦄ {V : Type 0} (b : Backend V) (connected : Bool) (sender : Sender) where
  -- The receiver of the signal runs if it is connected; orders/backend/apps.py connects none.
  abbrev pub after_save : Bool → ℕ → b.State → b.State
  after_save false pk s = s
  after_save true pk s = invalidate_cache_on_save b sender pk s

  abbrev pub after_step : Step b → b.State → b.State
  after_step (saved pk) s = after_save connected pk s
  after_step (elsewhere f) s = f s

  abbrev pub after_steps : List (Step b) → b.State → b.State
  after_steps [] s = s
  after_steps (step ∷ rest) s = after_steps rest (after_step step s)

  -- The step is not about the key: the row that is saved has another one, and what is changed
  -- otherwise is stored under others.
  abbrev pub IsApart : String → Step b → Type 0
  IsApart key (saved pk) = key ≢ model_instance (sender_name sender) pk
  IsApart key (elsewhere f) = (s : b.State) → b.get key (f s) ≡ b.get key s

  get-after_save :
      (on : Bool) (key : String) (pk : ℕ) (s : b.State)
      → IsSpared b sender key
      → key ≢ model_instance (sender_name sender) pk
      → b.get key (after_save on pk s) ≡ b.get key s
  get-after_save false key pk s spared ne = refl
  get-after_save true key pk s spared ne = spared pk s ne

  get-after_step :
      (key : String) (step : Step b) (s : b.State)
      → IsSpared b sender key
      → IsApart key step
      → b.get key (after_step step s) ≡ b.get key s
  get-after_step key (saved pk) s spared ne = get-after_save connected key pk s spared ne
  get-after_step key (elsewhere f) s spared apart = apart s

  pub get-after_steps :
      (key : String) (steps : List (Step b)) (s : b.State)
      → IsSpared b sender key
      → All (IsApart key) steps
      → b.get key (after_steps steps s) ≡ b.get key s
  get-after_steps key [] s spared apart = refl
  get-after_steps key (step ∷ rest) s spared apart =
      get-after_steps key rest (after_step step s) spared apart.1
      ∙ get-after_step key step s spared apart.0

module _ ⦃h : Hash⦄ {V : Type 0} (b : Backend V) where
  -- However many products are saved, and whether or not the receiver runs that means to delete
  -- it, what is cached of a catalogue is still there, if its digest differs from those of the saved
  -- products, and what else changes the cache leaves this key.
  pub catalog_survives :
      (redis : IsRedis b) (connected : Bool) (supplier category : Option ℕ) (active : Option Bool)
      (steps : List (Step b)) (s : b.State)
      → All (IsApart b connected of_product (product_catalog supplier category active)) steps
      → cache_get b
          (product_catalog supplier category active)
          none
          (after_steps b connected of_product steps s)
        ≡ cache_get b (product_catalog supplier category active) none s
  unfolding cache_get
  catalog_survives redis connected supplier category active steps s apart =
      let key = product_catalog supplier category active in
      let same =
        get-after_steps b connected of_product key steps s
          (product_saved b redis key (product_catalog-hex supplier category active)) apart in
      rw (same, cache_get) refl
