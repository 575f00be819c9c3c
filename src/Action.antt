-- ===== src/Action.antt =====
-- A view or a task as an action on the database that may raise. The database is in autocommit mode
-- (orders/orders/settings.py sets no `ATOMIC_REQUESTS`), so what was written before an exception
-- stays written and the state comes back beside the exception.
use python_diplom.Base.{ℕ, Option, none, some}
use python_diplom.Exn.{Exn, Result, ok, err}
use python_diplom.Models.{Db}

abbrev pub Action : Type 0 → Type 0
Action A = Db → Result A × Db

module _ {A : Type 0} where
  abbrev pub pure : A → Action A
  pure a db = (ok a, db)

  abbrev pub raise : Exn → Action A
  raise e db = (err e, db)

  abbrev pub lift : Result A → Action A
  lift r db = (r, db)

  abbrev pub gets : (Db → A) → Action A
  gets f db = (ok (f db), db)

  -- `None` where an attribute or a row is needed
  abbrev pub some_or : Option A → Exn → Action A
  some_or none e = raise e
  some_or (some a) e = pure a

abbrev pub modify : (Db → Db) → Action (Unit {0})
modify f db = (ok tt, f db)

abbrev pub then_run : {A B : Type 0} → Result A → (A → Action B) → Action B
then_run (ok a) f db = f a db
then_run (err e) f db = (err e, db)

infixl 5 ◌>>=◌ ◌>>◌
abbrev pub ◌>>=◌ : {A B : Type 0} → Action A → (A → Action B) → Action B
◌>>=◌ m f db = let (r, db') = m db in then_run r f db'

abbrev pub ◌>>◌ : {A B : Type 0} → Action A → Action B → Action B
m >> k = m >>= λ _. k

-- `try: m` `except: handler`
abbrev pub catch : {A : Type 0} → Action A → (Exn → Action A) → Action A
catch m handler db = let (r, db') = m db in elim r [ ok a ↦ (ok a, db') | err e ↦ handler e db' ]

-- A response of Django REST framework: the status code and the body.
pub record Response (B : Type 0) : Type 0 where
  pub status : ℕ
  pub body : B
