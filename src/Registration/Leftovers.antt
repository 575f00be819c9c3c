-- ===== src/Registration/Leftovers.antt =====
-- What a registration that fails leaves in the table of users.
use Prim.Native.String
use mathlib.Core.Path.{subst}
use python_diplom.Base.{
  ℕ, String, ◌≡◌, refl, sym, ap, ◌∙◌, Bool, true, false, ◌||◌, Option, none, some, List, [], ◌∷◌,
  ◌++◌, any, Bool-cases, inl, inr, arith, str_eq, eq_refl, ◌==◌,
}
use python_diplom.Exn.{Result, ok, err, integrity_error, validation_error}
use python_diplom.Text.{Unicode}
use python_diplom.Table.{insert, update, replace}
use python_diplom.Models.{Db, User, is_supplier, user_model, supplier_model}
use python_diplom.Action.{Action, then_run}
use python_diplom.Accounts.{
  Django, Registration, field_error, asks_supplier, clashes, with_code, new_user, insert_user,
  save_user, create_profile, validate,
}
use python_diplom.Registration.{
  finish, finish_supplier, second_profile, create, register_valid, register,
}
use python_diplom.Registration.Suppliers.{supplier_cannot_register}

-- `User.objects.filter(username=name).exists()`
abbrev is_named : String → List User → Bool
is_named name rows = any (λ v. str_eq v.username name) rows

abbrev IsNamed : String → Db → Type 0
IsNamed name db = is_named name db.users.rows ≡ true

is_named-replace :
    (name : String) (u : User) (rows : List User)
    → str_eq u.username name ≡ true
    → is_named name rows ≡ true
    → is_named name (replace u rows) ≡ true
is_named-replace name u [] e h = h
is_named-replace name u (x ∷ rows) e h = ground (arith, is_named-replace name u rows e)

is_named-append :
    (name : String) (u : User) (rows : List User)
    → str_eq u.username name ≡ true
    → is_named name (rows ++ u ∷ []) ≡ true
is_named-append name u [] e = ground arith
is_named-append name u (x ∷ rows) e = ground (arith, is_named-append name u rows e)

with_code-username : (code : String) (u : User) → (with_code code u).username ≡ u.username
with_code-username code u = ground arith

then_run-IsNamed :
    {A B : Type 0} (name : String) (r : Result A) (f : A → Action B) (db : Db)
    → IsNamed name db
    → ((a : A) → r ≡ ok a → IsNamed name (f a db).1)
    → IsNamed name (then_run r f db).1
then_run-IsNamed name (ok a) f db h k = k a refl
then_run-IsNamed name (err e) f db h k = h

save_user-IsNamed :
    (name code : String) (u : User) (db : Db)
    → str_eq u.username name ≡ true
    → IsNamed name db
    → IsNamed name (save_user code u db).1
unfolding save_user update
save_user-IsNamed name code u db e h =
    elim (Bool-cases (any (clashes (with_code code u)) db.users.rows)) [
      | inl t ↦ rw (t, save_user) h
      | inr t ↦
          rw (t, save_user)
            (is_named-replace name (with_code code u) db.users.rows
              (rw (with_code-username code u) e) h)
    ]

pub create_profile-users :
    (u : User) (t : Option String) (db : Db) → (create_profile u t db).1.users ≡ db.users
unfolding create_profile
create_profile-users u none db = refl
create_profile-users u (some t) db =
    elim (Bool-cases (any (λ s. (s.user == u.id) || str_eq s.tax_number t) db.suppliers.rows)) [
      | inl e ↦ rw (e, create_profile) refl
      | inr e ↦ rw (e, create_profile) refl
    ]

create_profile-IsNamed :
    (name : String) (u : User) (t : Option String) (db : Db)
    → IsNamed name db
    → IsNamed name (create_profile u t db).1
create_profile-IsNamed name u t db h = rw (create_profile-users u t db) h

finish-IsNamed :
    (name : String) (b : Bool) (u : User) (t : Option String) (code : String) (db : Db)
    → str_eq u.username name ≡ true
    → IsNamed name db
    → IsNamed name (finish b u t code db).1
unfolding finish finish_supplier
finish-IsNamed name false u t code db e h = h
finish-IsNamed name true u t code db e h =
    let (r, db₁) = save_user code (record u { supplier_code = some (String.◌++◌ "SUP" code) }) db in
    then_run-IsNamed name r _ db₁ (save_user-IsNamed name code _ db e h) λ v _.
      let (r₂, db₂) = create_profile v t db₁ in
      let h₁ =
        save_user-IsNamed name code (record u { supplier_code = some (String.◌++◌ "SUP" code) }) db
          e h in
      then_run-IsNamed name r₂ _ db₂ (create_profile-IsNamed name v t db₁ h₁)
        λ p _. create_profile-IsNamed name v t db₁ h₁

second_profile-IsNamed :
    (name : String) (b : Bool) (u : User) (db : Db)
    → IsNamed name db
    → IsNamed name (second_profile b u db).1
unfolding second_profile
second_profile-IsNamed name false u db h = h
second_profile-IsNamed name true u db h =
    let (r, db₁) = create_profile u none db in
    then_run-IsNamed name r _ db₁ (create_profile-IsNamed name u none db h)
      λ p _. create_profile-IsNamed name u none db h

insert_user-free :
    (code : String) (mk : ℕ → User) (db : Db)
    → any (clashes (with_code code (mk db.users.next_id))) db.users.rows ≡ false
    → insert_user code mk db ≡ (
      ok (with_code code (mk db.users.next_id)),
      record db { users = (insert (λ id. with_code code (mk id)) db.users).1 },
    )
unfolding insert_user insert
insert_user-free code mk db h = rw h refl

module _ ⦃d : Django⦄ where
  create-IsNamed :
      (r : Registration) (c₁ c₂ : String) (db : Db)
      → any (clashes (with_code c₁ (new_user r db.users.next_id))) db.users.rows ≡ false
      → IsNamed (d.normalize_username r.username) (create r c₁ c₂ db).1
  unfolding create insert
  create-IsNamed r c₁ c₂ db free =
      let name : String = d.normalize_username r.username in
      let u = with_code c₁ (new_user r db.users.next_id) in
      let e : str_eq u.username name ≡ true =
        rw (with_code-username c₁ (new_user r db.users.next_id)) (eq_refl name) in
      rw (insert_user-free c₁ (new_user r) db free) (
        finish-IsNamed name (asks_supplier r.user_type) u r.tax_number c₂ _ e
          (is_named-append name u db.users.rows e))

  register_valid-IsNamed :
      (r : Registration) (c₁ c₂ : String) (db : Db)
      → any (clashes (with_code c₁ (new_user r db.users.next_id))) db.users.rows ≡ false
      → IsNamed (d.normalize_username r.username) (register_valid r c₁ c₂ db).1
  unfolding register_valid
  register_valid-IsNamed r c₁ c₂ db free =
      let name : String = d.normalize_username r.username in
      let (made, db₁) = create r c₁ c₂ db in
      let h = create-IsNamed r c₁ c₂ db free in
      then_run-IsNamed name made _ db₁ h λ u _.
        let (r₂, db₂) = second_profile (is_supplier u.user_type) u db₁ in
        let h₂ = second_profile-IsNamed name (is_supplier u.user_type) u db₁ h in
        then_run-IsNamed name r₂ _ db₂ h₂ λ p _. h₂

  validate-same :
      ⦃u : Unicode⦄ (r v : Registration) (db : Db)
      → validate r db ≡ ok v
      → (v.username ≡ r.username) × (str_eq r.password r.password_confirm ≡ true)
  unfolding validate
  validate-same r v db h = (ground arith, ground arith)

  validate-taken :
      ⦃u : Unicode⦄ (r : Registration) (db : Db)
      → str_eq r.password r.password_confirm ≡ true
      → IsNamed r.username db
      → validate r db
        ≡ err (validation_error "username" "Пользователь с таким именем уже существует.")
  unfolding validate
  validate-taken r db same taken = rw (same, taken, validate) refl

  register_ok :
      ⦃u : Unicode⦄ (r v : Registration) (c₁ c₂ : String) (db : Db)
      → validate r db ≡ ok v
      → register r c₁ c₂ db ≡ register_valid v c₁ c₂ db
  unfolding register
  register_ok r v c₁ c₂ db e = rw (e, register) refl

  register_refused :
      ⦃u : Unicode⦄ (r : Registration) (c₁ c₂ field text : String) (db : Db)
      → validate r db ≡ err (validation_error field text)
      → register r c₁ c₂ db ≡ (ok (record { status = 400; body = field_error field text }), db)
  unfolding register
  register_refused r c₁ c₂ field text db e = rw (e, register) refl

  register-IsNamed :
      ⦃u : Unicode⦄ (r v : Registration) (c₁ c₂ : String) (db : Db)
      → validate r db ≡ ok v
      → d.normalize_username r.username ≡ r.username
      → any (clashes (with_code c₁ (new_user v db.users.next_id))) db.users.rows ≡ false
      → IsNamed r.username (register r c₁ c₂ db).1
  register-IsNamed r v c₁ c₂ db e plain free =
      let same : d.normalize_username v.username ≡ r.username =
        ap d.normalize_username (validate-same r v db e).0 ∙ plain in
      subst (λ x. IsNamed r.username x.1) (sym (register_ok r v c₁ c₂ db e))
        (subst (λ n. IsNamed n (register_valid v c₁ c₂ db).1) same
          (register_valid-IsNamed v c₁ c₂ db free))

  -- A supplier whose registration passes every check, with a name that needs no normalisation and
  -- that is not in use, gets an `IntegrityError` and loses the name: the user stays stored, and
  -- the same registration is then answered with 400, because the name is in use.
  pub supplier_loses_name :
      ⦃u : Unicode⦄ (r v : Registration) (c₁ c₂ c₃ c₄ : String) (db : Db)
      → asks_supplier r.user_type ≡ true
      → validate r db ≡ ok v
      → d.normalize_username r.username ≡ r.username
      → any (clashes (with_code c₁ (new_user v db.users.next_id))) db.users.rows ≡ false
      → let (first, db') = register r c₁ c₂ db in
        (first ≡ err integrity_error)
        × (register r c₃ c₄ db' ≡ (
          ok (record {
            status = 400;
            body = field_error "username" "Пользователь с таким именем уже существует.";
          }),
          db',
        ))
  supplier_loses_name r v c₁ c₂ c₃ c₄ db asks e plain free = (
    supplier_cannot_register r v c₁ c₂ db asks e,
    register_refused r c₃ c₄ "username" "Пользователь с таким именем уже существует."
        (register r c₁ c₂ db).1
        (validate-taken r (register r c₁ c₂ db).1 (validate-same r v db e).1
          (register-IsNamed r v c₁ c₂ db e plain free)),
  )
