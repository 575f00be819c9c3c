-- ===== src/Registration/Login.antt =====
-- Who gets tokens from `login`, and what the answers give away.
use python_diplom.Base.{
  List, [], ◌∷◌, ◌≤◌, length, keep, str_eq, String, ◌≡◌, refl, true, false, Option, some, arith,
}
use python_diplom.Exn.{ok, err, key_error}
use python_diplom.Models.{Db, User}
use python_diplom.Action.{Response}
use python_diplom.Text.{is_empty}
use python_diplom.Accounts.{Django, Body, user_data, token_response}
use python_diplom.Registration.{Authentication, reset_answer, credentials, login, password_reset}

module _ ⦃d : Django⦄ where
  -- When `login` answers with status 200, `authenticate` has returned an active user for the name
  -- and the password sent, and the database is as before.
  tokens_only_for_users :
      (a : Authentication) (name word : Option String) (db : Db) (r : Response Body)
      → (login a name word db).0 ≡ ok r
      → r.status ≡ 200
      → (user : User) × (credentials a name word db ≡ some user)
        × (user.is_active ≡ true)
        × ((login a name word db).1 ≡ db)
  unfolding login token_response
  tokens_only_for_users a name word db r h s = ground arith

  -- An active user who has an avatar cannot log in: the right name and password end in `KeyError`,
  -- because the serializer is not given the request that it needs to build the avatar's URL.
  pub avatar_locks_out :
      (a : Authentication) (name word file : String) (db : Db) (user : User)
      → is_empty name ≡ false
      → is_empty word ≡ false
      → a.authenticate name word db ≡ some user
      → user.is_active ≡ true
      → user.avatar ≡ some file
      → login a (some name) (some word) db ≡ (err (key_error "request"), db)
  unfolding login token_response user_data
  avatar_locks_out a name word file db user hn hw found active has =
      rw (hn, hw, found, active, has) refl

  reset_answer_same :
      (xs ys : List User) → length xs ≤ 1 → length ys ≤ 1 → reset_answer xs ≡ reset_answer ys
  unfolding reset_answer
  reset_answer_same [] [] h k = refl
  reset_answer_same [] (y ∷ []) h k = refl
  reset_answer_same (x ∷ []) [] h k = refl
  reset_answer_same (x ∷ []) (y ∷ []) h k = refl
  reset_answer_same (x ∷ (x' ∷ xs)) ys h k = absurd (omega (arith, h))
  reset_answer_same [] (y ∷ (y' ∷ ys)) h k = absurd (omega (arith, k))
  reset_answer_same (x ∷ []) (y ∷ (y' ∷ ys)) h k = absurd (omega (arith, k))

  -- As long as no two users share the address, the answer to a password reset does not depend on
  -- who is registered.
  password_reset-hides :
      (email : String) (db db' : Db)
      → length (keep (λ u. str_eq u.email email) db.users.rows) ≤ 1
      → length (keep (λ u. str_eq u.email email) db'.users.rows) ≤ 1
      → (password_reset email db).0 ≡ (password_reset email db').0
  unfolding password_reset
  password_reset-hides email db db' h k =
      reset_answer_same (keep (λ (u : User). str_eq u.email email) db.users.rows)
        (keep (λ (u : User). str_eq u.email email) db'.users.rows) h k
