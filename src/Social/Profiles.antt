-- ===== src/Social/Profiles.antt =====
-- What the steps of the social login leave behind.
use python_diplom.Base.{
  ◌↔◌, ◌∙◌, any, ◌&&◌, ◌≡◌, ◌≢◌, refl, Option, none, some, inl, inr, Bool-cases, Option-cases,
  arith, String, ◌↔◌,
}
use python_diplom.Exn.{err-ne-ok, Exn, Result, ok, err}
use python_diplom.Models.{FileField, Db, User, is_supplier, supplier_profile}
use python_diplom.Accounts.{
  UserView, save_user, clashes, with_code, missing, avatar_url, thumbnail_url, Django, user_data,
  save_user,
}
use python_diplom.Action.{Action, then_run}
use python_diplom.Social.{
  failed, is_auth, is_unset, Details, create_user_profile, ensure_type, ensure_code, ensure_profile,
  try_profile, callback,
}

module _ ⦃d : Django⦄ where
  url_given :
      (build : String → String) (f : FileField)
      → (x : Option String) × (avatar_url (some build) f ≡ ok x)
  url_given build none = (none, refl)
  url_given build (some name) = (some (build (d.file_url name)), refl)

  thumbnail_given :
      (build : String → String) (o f : FileField)
      → (x : Option String) × (thumbnail_url (some build) o f ≡ ok x)
  thumbnail_given build o none = url_given build o
  thumbnail_given build o (some name) = url_given build (some name)

  -- With the request in its context the serializer never raises.
  user_data-given :
      (build : String → String) (u : User) → (v : UserView) × (user_data (some build) u ≡ ok v)
  unfolding user_data
  user_data-given build u =
      let (a, ha) = url_given build u.avatar in
      let (s, hs) = thumbnail_given build u.avatar u.avatar_small in
      let (m, hm) = thumbnail_given build u.avatar u.avatar_medium in
      let (l, hl) = thumbnail_given build u.avatar u.avatar_large in
      (
        record {
          user = u;
          avatar_url = a;
          avatar_small_url = s;
          avatar_medium_url = m;
          avatar_large_url = l;
        },
        rw (ha, hs, hm, hl, user_data) refl,
      )

  failed_lem : (e : Exn) → (failed e).status ≢ 200
  failed_lem e h = elim (Option-cases (is_auth e)) [
    | inl n ↦ omega (arith, (rw (n, failed) at h))
    | inr (t, n) ↦ omega (arith, (rw (n, failed) at h))
  ]

  answers :
      (build : String → String) (redirect : String) (user : User)
      → (callback build redirect (ok (some user))).status ≡ 200
  unfolding callback
  answers build redirect user = rw ((user_data-given build user).1, callback) refl

  -- The callback answers 200 exactly if the provider's backend has completed with a user: its
  -- serializer has the request, so an avatar does not stand in the way.
  callback_iff :
      (build : String → String) (redirect : String) (complete : Result (Option User))
      → (((callback build redirect complete).status ≡ 200)
          ↔ ((user : User) × (complete ≡ ok (some user))))
  unfolding callback
  callback_iff build redirect (err e) =
      (λ h. absurd (failed_lem e h), λ (u, h). absurd (err-ne-ok h))
  callback_iff build redirect (ok none) = (λ h. absurd (omega (arith, h)), λ (u, h). cc)
  callback_iff build redirect (ok (some user)) =
      (λ h. (user, refl), λ p. answers build redirect user)

save_user-suppliers :
    (code : String) (u : User) (db : Db) → (save_user code u db).1.suppliers ≡ db.suppliers
unfolding save_user
save_user-suppliers code u db = elim (Bool-cases (any (clashes (with_code code u)) db.users.rows)) [
  | inl e ↦ rw (e, save_user) refl
  | inr e ↦ rw (e, save_user) refl
]

then_run-suppliers :
    (r : Result User) (db db' : Db) (f : User → Action User)
    → db'.suppliers ≡ db.suppliers
    → ((u : User) → (f u db').1.suppliers ≡ db'.suppliers)
    → (then_run r f db').1.suppliers ≡ db.suppliers
then_run-suppliers (ok u) db db' f h k = k u ∙ h
then_run-suppliers (err e) db db' f h k = h

ensure_type-suppliers :
    (code : String) (u : User) (db : Db) → (ensure_type code u db).1.suppliers ≡ db.suppliers
unfolding ensure_type
ensure_type-suppliers code u db = elim (Bool-cases (is_unset u.user_type)) [
  | inl e ↦ rw (e, ensure_type) (save_user-suppliers code _ db)
  | inr e ↦ rw (e, ensure_type) refl
]

ensure_code-suppliers :
    (code : String) (u : User) (db : Db) → (ensure_code code u db).1.suppliers ≡ db.suppliers
unfolding ensure_code
ensure_code-suppliers code u db =
    elim (Bool-cases (is_supplier u.user_type && missing u.supplier_code)) [
      | inl e ↦ rw (e, ensure_code) (save_user-suppliers code _ db)
      | inr e ↦ rw (e, ensure_code) refl
    ]

ensure_profile-suppliers :
    (strip : String → String) (details : Details) (u : User) (db : Db)
    → details.tax_number ≡ none
    → (ensure_profile strip details u db).1.suppliers ≡ db.suppliers
unfolding ensure_profile try_profile
ensure_profile-suppliers strip details u db h = elim (Option-cases (supplier_profile u.id db)) [
  | inr (s, e) ↦ rw (e, ensure_profile) refl
  | inl e ↦ elim (Bool-cases (is_supplier u.user_type)) [
    | inl t ↦ rw (e, ensure_profile, t, h) refl
    | inr t ↦ rw (e, ensure_profile, t) refl
  ]
]

-- A user who comes without a tax number gets no profile from `create_user_profile`, also one of
-- type supplier; and the step that fails to store one raises nothing for it.
no_tax_number_no_profile :
    (strip : String → String) (code : String) (details : Details) (user : User) (db : Db)
    → details.tax_number ≡ none
    → (create_user_profile strip code details user db).1.suppliers ≡ db.suppliers
unfolding create_user_profile
no_tax_number_no_profile strip code details user db h =
    let (r, db₁) = ensure_type code user db in
    then_run-suppliers r db db₁ _ (ensure_type-suppliers code user db) (λ typed.
      let (r₂, db₂) = ensure_code code typed db₁ in
      then_run-suppliers r₂ db₁ db₂ _ (ensure_code-suppliers code typed db₁)
        (λ coded. ensure_profile-suppliers strip details coded db₂ h))
