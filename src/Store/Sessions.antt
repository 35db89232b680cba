-- ===== src/Store/Sessions.antt =====
-- unit_of_work.py: a connection and its transaction, beside the provider that the code calls while
-- the transaction is open. A connection sees `db`; what others see is `durable`. A transaction on
-- one payment holds the payment's row lock, so transactions follow one another.
use agent_pay.Prelude.{ℕ, ◌+◌, Result, ok, err}
use agent_pay.Prelude.Exec.{Exec}
use agent_pay.Store.Records.{Db}

pub record Session (P : Type 0) : Type 0 where
  pub durable : Db
  pub db : Db
  pub provider : P

-- gen_random_uuid()
unfoldable pub fresh_id : Exec Db ℕ
fresh_id db = (ok db.next_id, record db { next_id = db.next_id + 1 })

module _ {P A : Type 0} where
  -- A repository's method on the open connection.
  unfoldable pub on_db : Exec Db A → Exec (Session P) A
  on_db m s = let (r, db') = m s.db in (r, record s { db = db' })

  -- A call of the provider, which no rollback takes back.
  unfoldable pub on_provider : (P → A × P) → Exec (Session P) A
  on_provider f s = let (a, p) = f s.provider in (ok a, record s { provider = p })

  -- `__exit__` of the unit of work: an exception rolls back and goes on.
  abbrev pub finish : Result A → Session P → Result A × Session P
  finish (ok a) s = (ok a, record s { durable = s.db })
  finish (err e) s = (err e, record s { db = s.durable })

  -- `with UnitOfWork(conn): m`. `BEGIN` inside an open transaction changes nothing.
  unfoldable pub unit_of_work : Exec (Session P) A → Exec (Session P) A
  unit_of_work m s = let (r, s') = m s in finish r s'
