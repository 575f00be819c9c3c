-- ===== src/Registration/Clients.antt =====
-- What registration does for a client.
use mathlib.Core.Path.{subst}
use python_diplom.Base.{
  ℕ, suc, sym, true, Bool, Option, some, List, [], ◌∷◌, ◌++◌, All, or_default, str_eq, String, ◌≡◌,
  refl, false, none, any, arith,
}
use python_diplom.Exn.{ok}
use python_diplom.Text.{Unicode}
use python_diplom.Table.{insert}
use python_diplom.Models.{Db, User, UserType, is_supplier, user_model}
use python_diplom.Accounts.{
  Django, Registration, tokens, UserView, asks_supplier, clashes, code_taken, with_code, new_user,
  insert_user, token_response, validate,
}
use python_diplom.Registration.{finish, second_profile, create, register_valid, register}

-- The answer of the serializer for a user that has no avatar.
abbrev pub plain_view : User → UserView
plain_view u = record {
  user = u;
  avatar_url = none;
  avatar_small_url = none;
  avatar_medium_url = none;
  avatar_large_url = none;
}

-- The row of a user who has registered and is no supplier.
abbrev pub registered : ⦃d : Django⦄ → Registration → ℕ → User
registered ⦃d⦄ r id = record {
  id = id;
  username = d.normalize_username r.username;
  email = d.normalize_email r.email;
  first_name = r.first_name;
  last_name = r.last_name;
  user_type = or_default UserType.client r.user_type;
  phone = r.phone;
  company_name = r.company_name;
  address = r.address;
  is_active = true;
  is_staff = false;
  supplier_code = none;
  accepts_orders = true;
  avatar = none;
  avatar_small = none;
  avatar_medium = none;
  avatar_large = none;
}

any-none : {A : Type 0} (p : A → Bool) (xs : List A) → All (λ x. p x ≡ false) xs → any p xs ≡ false
any-none p [] h = refl
any-none p (x ∷ xs) h = rw h.0 (any-none p xs h.1)

no_code : (c : Option String) → code_taken c none ≡ false
no_code none = refl
no_code (some c) = refl

-- A user without a code clashes only by the name.
no_clash :
    (u : User) (rows : List User)
    → u.supplier_code ≡ none
    → All (λ v. str_eq v.username u.username ≡ false) rows
    → any (clashes u) rows ≡ false
no_clash u [] e h = refl
no_clash u (v ∷ rows) e h =
    let rest = no_clash u rows e h.1 in
    ground (
      arith,
      h.0,
      rest,
      subst (λ c. code_taken v.supplier_code c ≡ false) (sym e) (no_code v.supplier_code),
    )

module _ ⦃d : Django⦄ where
  client_valid :
      ⦃u : Unicode⦄ (r : Registration) (db : Db)
      → str_eq r.password r.password_confirm ≡ true
      → All (λ v. str_eq v.username r.username ≡ false) db.users.rows
      → All (λ v. str_eq v.email r.email ≡ false) db.users.rows
      → asks_supplier r.user_type ≡ false
      → validate r db ≡ ok r
  unfolding validate
  client_valid r db words named mailed h =
      rw
        (
          words,
          any-none (λ (v : User). str_eq v.username r.username) db.users.rows named,
          any-none (λ (v : User). str_eq v.email r.email) db.users.rows mailed,
          h,
        )
        refl

  client_row :
      (r : Registration) (code : String) (n : ℕ)
      → asks_supplier r.user_type ≡ false
      → with_code code (new_user r n) ≡ new_user r n
  client_row r code n h = ground arith

  client_type :
      (r : Registration) (n : ℕ)
      → asks_supplier r.user_type ≡ false
      → is_supplier (new_user r n).user_type ≡ false
  client_type r n h = ground arith

  insert_client :
      (r : Registration) (code : String) (db : Db)
      → asks_supplier r.user_type ≡ false
      → any (clashes (new_user r db.users.next_id)) db.users.rows ≡ false
      → insert_user code (new_user r) db
        ≡ (ok (new_user r db.users.next_id), record db { users = (insert (new_user r) db.users).1 })
  unfolding insert_user insert
  insert_client r code db h free = rw (client_row r code db.users.next_id h, free) refl

  create_client :
      (r : Registration) (c₁ c₂ : String) (db : Db)
      → asks_supplier r.user_type ≡ false
      → any (clashes (new_user r db.users.next_id)) db.users.rows ≡ false
      → create r c₁ c₂ db
        ≡ (ok (new_user r db.users.next_id), record db { users = (insert (new_user r) db.users).1 })
  unfolding create finish
  create_client r c₁ c₂ db h free = rw (insert_client r c₁ db h free, create, h, finish) refl

  register_valid_client :
      (r : Registration) (c₁ c₂ : String) (db : Db)
      → asks_supplier r.user_type ≡ false
      → any (clashes (new_user r db.users.next_id)) db.users.rows ≡ false
      → register_valid r c₁ c₂ db ≡ (
        ok (record { status = 201; body = tokens (plain_view (new_user r db.users.next_id)) }),
        record db { users = (insert (new_user r) db.users).1 },
      )
  unfolding register_valid second_profile token_response
  register_valid_client r c₁ c₂ db h free =
      rw
        (
          create_client r c₁ c₂ db h free,
          register_valid,
          client_type r db.users.next_id h,
          second_profile,
        )
        refl

  -- A registration with the same password twice, with a name and an address that no user has, which
  -- does not ask for a supplier's account and takes no name that is in use once normalised, is
  -- answered with 201 and tokens. One user is stored under the next key: with the name and the
  -- address normalised, the other texts as they were sent, active, no member of the staff and without
  -- pictures, and a client unless another type was asked for. No other table changes.
  pub register_client :
      ⦃u : Unicode⦄ (r : Registration) (c₁ c₂ : String) (db : Db)
      → str_eq r.password r.password_confirm ≡ true
      → All (λ v. str_eq v.username r.username ≡ false) db.users.rows
      → All (λ v. str_eq v.email r.email ≡ false) db.users.rows
      → asks_supplier r.user_type ≡ false
      → All (λ v. str_eq v.username (d.normalize_username r.username) ≡ false) db.users.rows
      → let user = registered r db.users.next_id in
        register r c₁ c₂ db ≡ (
          ok (record { status = 201; body = tokens (plain_view user) }),
          record db {
            users = record { rows = db.users.rows ++ user ∷ []; next_id = suc db.users.next_id };
          },
        )
  unfolding register insert
  register_client r c₁ c₂ db words named mailed h free =
      rw (client_valid r db words named mailed h, register)
        (register_valid_client r c₁ c₂ db h
          (no_clash (new_user r db.users.next_id) db.users.rows refl free))
