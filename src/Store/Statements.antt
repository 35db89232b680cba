-- ===== src/Store/Statements.antt =====
-- Statements that PostgreSQL refuses, whatever the tables hold.
use agent_pay.Prelude.Errors.{Error.database_error}
use agent_pay.Prelude.Exec.{Exec, raise}
use agent_pay.Store.Records.{Db}

pub data JoinKind : Type 0 where
  inner left : JoinKind

-- SELECT ... FOR UPDATE without OF locks the rows of every table, and the nullable side of an outer
-- join has none to lock.
unfoldable pub for_update : {A : Type 0} → JoinKind → Exec Db A → Exec Db A
for_update inner query = query
for_update left query =
    raise (database_error "FOR UPDATE cannot be applied to the nullable side of an outer join")

-- A unique index of a table, or one with a WHERE.
pub data IndexKind : Type 0 where
  full partial : IndexKind

-- INSERT ... ON CONFLICT (column) without WHERE infers no partial index.
unfoldable pub on_conflict : {A : Type 0} → IndexKind → Exec Db A → Exec Db A
on_conflict full insert = insert
on_conflict partial insert = raise (
    database_error
      "there is no unique or exclusion constraint matching the ON CONFLICT specification")
