-- ===== src/Examples/Deletions.antt =====
-- Examples for the theorems on foreign keys and on the views of suppliers.
use python_diplom.Base.{String, ◌≡◌, ◌≢◌, refl, some, [], ◌∷◌}
use python_diplom.Exn.{ok}
use python_diplom.Table.{get}
use python_diplom.Models.{supplier_model}
use python_diplom.Accounts.{UserView}
use python_diplom.TaxNumber.{validate_tax_number}
use python_diplom.SupplierViews.{patch_supplier, supplier_data, reply}
use python_diplom.SupplierViews.TaxColumn.{renumber, eleven_digits_stored}
use python_diplom.Integrity.{IsLinked}
use python_diplom.Integrity.Requests.{of_order, of_user, of_supplier, after_all, after_all-IsLinked}
use python_diplom.Examples.{shop, anna, boris, boris_profile, ascii, plain_django}
use python_diplom.Examples.Services.{folders}

pub shop-IsLinked : IsLinked shop
shop-IsLinked = record {
  profiles = (refl, tt);
  one_profile = (tt, tt);
  sellers = (refl, tt);
  kinds = (refl, tt);
  pictures = tt;
  valued = tt;
  named = tt;
  importers = tt;
  clients = (refl, tt);
  ordered_in = (refl, tt);
  ordered = (refl, tt);
  sold_by = (refl, tt);
}

-- The supplier is protected by Anna's order until it is deleted.
after_all-IsLinked_example : IsLinked (
    after_all
      (of_supplier anna 5 ∷ of_order anna 11 ∷ of_supplier anna 5 ∷ of_user anna 2 ∷ [])
      shop)
after_all-IsLinked_example =
    after_all-IsLinked
      (of_supplier anna 5 ∷ of_order anna 11 ∷ of_supplier anna 5 ∷ of_user anna 2 ∷ []) shop
      shop-IsLinked

-- Anna, a client, gives Boris a tax number of eleven digits.
eleven_digits_stored_example :
    let (answer, db') = patch_supplier (λ url. url) anna 5 (renumber "77070838931") shop in
    ((v : UserView) × (answer
        ≡ reply 200 (supplier_data (record boris_profile { tax_number = "77070838931" }) v)))
    × (get 5 db'.suppliers ≡ some (record boris_profile { tax_number = "77070838931" }))
    × ((r : String) → validate_tax_number "77070838931" ≢ ok r)
eleven_digits_stored_example =
    eleven_digits_stored (λ url. url) anna boris boris_profile "77070838931" shop refl refl refl
      refl refl
