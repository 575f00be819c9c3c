-- ===== src/Orders/Validation.antt =====
-- What `validate_items` accepts.
use python_diplom.Base.{
  ℕ, ◌≤◌, ◌<◌, ◌≡◌, refl, ◌↔◌, false, Option, some, List, [], ◌∷◌, All, is_nil, arith,
}
use python_diplom.Exn.{ok}
use python_diplom.Models.{Product}
use python_diplom.Orders.{ItemData, check_item, check_items, validate_items}

abbrev pub InStock : Option Product → Option ℕ → Type 0
InStock (some product) (some quantity) = (0 < quantity) × (quantity ≤ product.stock_quantity)
InStock _ _ = ⊥

-- The entry names a product and a positive quantity of it that is in stock.
abbrev pub IsOrderable : ItemData → Type 0
IsOrderable item = InStock item.product item.quantity

check_item_sound : (item : ItemData) → check_item item ≡ ok tt → IsOrderable item
unfolding check_item
check_item_sound item h = ground arith

check_item_complete : (item : ItemData) → IsOrderable item → check_item item ≡ ok tt
unfolding check_item
check_item_complete item v = ground arith

check_items_sound : (items : List ItemData) → check_items items ≡ ok tt → All IsOrderable items
unfolding check_items
check_items_sound [] h = tt
check_items_sound (item ∷ rest) h = ground (arith, check_item_sound item, check_items_sound rest)

check_items_complete : (items : List ItemData) → All IsOrderable items → check_items items ≡ ok tt
unfolding check_items
check_items_complete [] v = refl
check_items_complete (item ∷ rest) v =
    ground (arith, check_item_complete item v.0, check_items_complete rest v.1)

-- A list of items is accepted exactly if it is not empty and every entry names a product and a
-- positive quantity that is in stock.
pub validate_items_iff :
    (items : List ItemData)
    → ((validate_items items ≡ ok items) ↔ ((is_nil items ≡ false) × All IsOrderable items))
unfolding validate_items
validate_items_iff items = (
  λ h. (ground arith, check_items_sound items (ground arith)),
  λ v. rw (v.0, check_items_complete items v.1) refl,
)
