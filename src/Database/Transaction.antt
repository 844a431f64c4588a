-- ===== src/Database/Transaction.antt =====
-- A transaction: it reads and writes the tables, or throws, and then nothing of it is kept. The row
-- and advisory locks (apps/api/src/shared/locks.ts) order the transactions that touch the same
-- rows, so that each runs on the tables that the one before it left.
use aipms.Prelude.{ℕ, Bool, true, false, Option, none, some, [], ◌∷◌, ◌++◌, Error, Result, ok, err}
use aipms.Database.Rows.{Db, EventType}

abbrev pub Tx {ℓ} : Type ℓ → Type ℓ
Tx A = Db → Result (A × Db)

infixl 5 ◌>>=◌ ◌>>◌
abbrev pub ◌>>=◌ {ℓ κ} : {A : Type ℓ} {B : Type κ} → Tx A → (A → Tx B) → Tx B
◌>>=◌ m f db = elim (m db) [ ok (a, db') ↦ f a db' | err e ↦ err e ]

abbrev pub ◌>>◌ {ℓ} : {B : Type ℓ} → Tx (Unit {0}) → Tx B → Tx B
m >> k = m >>= λ _. k

module _ {ℓ} {A : Type ℓ} where
  abbrev pub pure : A → Tx A
  pure a db = ok (a, db)

  abbrev pub throw : Error → Tx A
  throw e db = err e

  abbrev pub lift : Result A → Tx A
  lift (ok a) db = ok (a, db)
  lift (err e) db = err e

  -- A query.
  abbrev pub gets : (Db → A) → Tx A
  gets f db = ok (f db, db)

  abbrev pub or_throw : Option A → Error → Tx A
  or_throw none e = throw e
  or_throw (some a) e = pure a

abbrev pub throw_if : Bool → Error → Tx (Unit {0})
throw_if true e db = err e
throw_if false e db = ok (tt, db)

-- A write.
abbrev pub modify : (Db → Db) → Tx (Unit {0})
modify f db = ok (tt, f db)

-- `EventEmitterService.emit` inside the transaction.
abbrev pub emit : EventType → ℕ → Tx (Unit {0})
emit t entity db =
    ok (tt, record db { events = db.events ++ record { event_type = t; entity_id = entity } ∷ [] })
