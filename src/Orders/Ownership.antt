-- ===== src/Orders/Ownership.antt =====
-- Which order a row of the items belongs to.
use python_diplom.Base.{ℕ, suc, ◌<◌, ◌≡◌, ◌≢◌, true, false, List, [], ◌∷◌, All, arith, ◌==◌}
use python_diplom.Models.{OrderItem, order_model, item_model}

pub below-false :
    (n : ℕ) (xs : List OrderItem) → All (λ i. i.order < n) xs → All (λ i. (i.order == n) ≡ false) xs
below-false n [] h = tt
below-false n (i ∷ xs) h = (ground arith, below-false n xs h.1)

pub own-true :
    (n : ℕ) (xs : List OrderItem) → All (λ i. i.order ≡ n) xs → All (λ i. (i.order == n) ≡ true) xs
own-true n [] h = tt
own-true n (i ∷ xs) h = (ground arith, own-true n xs h.1)

pub own-false :
    (n k : ℕ) (xs : List OrderItem)
    → k ≢ n
    → All (λ i. i.order ≡ n) xs
    → All (λ i. (i.order == k) ≡ false) xs
own-false n k [] ne h = tt
own-false n k (i ∷ xs) ne h = (ground arith, own-false n k xs ne h.1)

pub own-below :
    (n : ℕ) (xs : List OrderItem) → All (λ i. i.order ≡ n) xs → All (λ i. i.order < suc n) xs
own-below n [] h = tt
own-below n (i ∷ xs) h = (omega (arith, h.0), own-below n xs h.1)

pub old-below :
    (n : ℕ) (xs : List OrderItem) → All (λ i. i.order < n) xs → All (λ i. i.order < suc n) xs
old-below n [] h = tt
old-below n (i ∷ xs) h = (omega (arith, h.0), old-below n xs h.1)
