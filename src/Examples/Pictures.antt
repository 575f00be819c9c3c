-- ===== src/Examples/Pictures.antt =====
-- Examples for the theorems on pictures.
use python_diplom.Base.{◌≡◌, refl, String, some, [], ◌∷◌}
use python_diplom.Exn.{Exn, other_error}
use python_diplom.Table.{get}
use python_diplom.Models.{product_model}
use python_diplom.Media.{Upload}
use python_diplom.Thumbnails.{product_sizes, success, done, process_product_image}
use python_diplom.Thumbnails.Laws.{unreadable_reported}
use python_diplom.Examples.{ascii, broken, shop, tea}

abbrev photo : Upload
photo = record { name = "photo.png"; size = 90000 }

abbrev as_text : Exn → String
as_text e = "error"

unreadable_reported_example :
    let (outcome, db') = process_product_image product_sizes as_text 0 7 shop in
    (outcome ≡ done (success 7 ("thumbnail" ∷ "small" ∷ "medium" ∷ "large" ∷ [])))
    × (get 7 db'.products ≡ some tea)
unreadable_reported_example =
    unreadable_reported product_sizes as_text 0 tea "tea.png"
      (other_error "cannot identify image file") shop refl refl refl
