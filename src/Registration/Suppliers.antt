-- ===== src/Registration/Suppliers.antt =====
-- Why no supplier can register.
use python_diplom.Base.{ℕ, String, ◌≡◌, refl, ap, true, Option, none, some, arith}
use python_diplom.Exn.{Exn, Result, ok, err, integrity_error}
use python_diplom.Text.{Unicode}
use python_diplom.Table.{insert}
use python_diplom.Models.{Db, User, is_supplier, user_model, supplier_model}
use python_diplom.Action.{Action, Response, then_run}
use python_diplom.Accounts.{
  Django, Registration, Body, asks_supplier, with_code, new_user, insert_user, save_user,
  create_profile, validate,
}
use python_diplom.Registration.{
  finish, finish_supplier, second_profile, create, register_valid, register,
}

-- The call raises the given exception.
abbrev pub Raises : {A : Type 0} → Exn → Result A × Db → Type 0
Raises e (r, db) = r ≡ err e

-- The call raises `IntegrityError`, or returns a supplier.
abbrev SupplierOr : Result User × Db → Type 0
SupplierOr (ok u, db) = is_supplier u.user_type ≡ true
SupplierOr (err e, db) = e ≡ integrity_error

then_SupplierOr :
    {A : Type 0} (r : Result A) (f : A → Action User) (db : Db)
    → ((e : Exn) → r ≡ err e → e ≡ integrity_error)
    → ((a : A) (db' : Db) → r ≡ ok a → SupplierOr (f a db'))
    → SupplierOr (then_run r f db)
then_SupplierOr (ok a) f db h k = k a db refl
then_SupplierOr (err e) f db h k = h e refl

insert_user-err :
    (code : String) (mk : ℕ → User) (db : Db) (e : Exn)
    → (insert_user code mk db).0 ≡ err e
    → e ≡ integrity_error
unfolding insert_user
insert_user-err code mk db e h = ground arith

save_user-err :
    (code : String) (u : User) (db : Db) (e : Exn)
    → (save_user code u db).0 ≡ err e
    → e ≡ integrity_error
unfolding save_user
save_user-err code u db e h = ground arith

create_profile-err :
    (u : User) (t : Option String) (db : Db) (e : Exn)
    → (create_profile u t db).0 ≡ err e
    → e ≡ integrity_error
unfolding create_profile
create_profile-err u none db e h = ground arith
create_profile-err u (some t) db e h = ground arith

with_code-type : (code : String) (u : User) → (with_code code u).user_type ≡ u.user_type
with_code-type code u = ground arith

save_user-type :
    (code : String) (u v : User) (db : Db)
    → (save_user code u db).0 ≡ ok v
    → v.user_type ≡ u.user_type
unfolding save_user
save_user-type code u v db h = ground (arith, with_code-type code u)

insert_user-type :
    (code : String) (mk : ℕ → User) (v : User) (db : Db)
    → (insert_user code mk db).0 ≡ ok v
    → v ≡ with_code code (mk db.users.next_id)
unfolding insert_user insert
insert_user-type code mk v db h = ground arith

finish_supplier-SupplierOr :
    (u : User) (t : Option String) (code : String) (db : Db)
    → is_supplier u.user_type ≡ true
    → SupplierOr (finish_supplier u t code db)
unfolding finish_supplier
finish_supplier-SupplierOr u t code db h =
    then_SupplierOr (save_user code _ db).0 _ (save_user code _ db).1 (save_user-err code _ db)
      λ v db' e.
        then_SupplierOr (create_profile v t db').0 _ (create_profile v t db').1
          (create_profile-err v t db') λ p db'' _. rw (save_user-type code _ v db e) h

module _ ⦃d : Django⦄ where
  new_user-type :
      (r : Registration) (code : String) (n : ℕ)
      → asks_supplier r.user_type ≡ true
      → is_supplier (with_code code (new_user r n)).user_type ≡ true
  new_user-type r code n h = rw (with_code-type code (new_user r n)) (ground arith)

  create-SupplierOr :
      (r : Registration) (c₁ c₂ : String) (db : Db)
      → asks_supplier r.user_type ≡ true
      → SupplierOr (create r c₁ c₂ db)
  unfolding create finish
  create-SupplierOr r c₁ c₂ db h =
      then_SupplierOr (insert_user c₁ (new_user r) db).0 _ (insert_user c₁ (new_user r) db).1
        (insert_user-err c₁ (new_user r) db)
        λ v db' e.
          rw (h, finish)
            (finish_supplier-SupplierOr v r.tax_number c₂ db' (
              rw (insert_user-type c₁ (new_user r) v db e) (new_user-type r c₁ db.users.next_id h)))

  after_create-Raises :
      (r : Result User) (f : User → Action (Response Body)) (db : Db)
      → SupplierOr (r, db)
      → ((v : User) (db' : Db) → is_supplier v.user_type ≡ true → Raises integrity_error (f v db'))
      → Raises integrity_error (then_run r f db)
  after_create-Raises (ok v) f db h k = k v db h
  after_create-Raises (err e) f db h k = ap err h

  register_valid-Raises :
      (r : Registration) (c₁ c₂ : String) (db : Db)
      → asks_supplier r.user_type ≡ true
      → Raises integrity_error (register_valid r c₁ c₂ db)
  unfolding register_valid second_profile create_profile
  register_valid-Raises r c₁ c₂ db h =
      after_create-Raises (create r c₁ c₂ db).0 _ (create r c₁ c₂ db).1
        (create-SupplierOr r c₁ c₂ db h) λ v db' s. rw s refl

  validate-type :
      ⦃u : Unicode⦄ (r v : Registration) (db : Db)
      → validate r db ≡ ok v
      → v.user_type ≡ r.user_type
  unfolding validate
  validate-type r v db h = ground arith

  -- A registration as a supplier that passes every check ends in `IntegrityError` all the same:
  -- after the serializer has stored the profile, the view stores a second one for the same user.
  pub supplier_cannot_register :
      ⦃u : Unicode⦄ (r v : Registration) (c₁ c₂ : String) (db : Db)
      → asks_supplier r.user_type ≡ true
      → validate r db ≡ ok v
      → Raises integrity_error (register r c₁ c₂ db)
  unfolding register
  supplier_cannot_register r v c₁ c₂ db h e =
      rw (e, register) (register_valid-Raises v c₁ c₂ db (rw (validate-type r v db e) h))
