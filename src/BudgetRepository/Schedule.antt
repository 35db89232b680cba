-- ===== src/BudgetRepository/Schedule.antt =====
-- Any sequence of budget operations, each in its own unit of work. Row locks make concurrent
-- transactions on a budget such a sequence.
use agent_pay.Prelude.{ℕ, ℤ, Result, List, [], ◌∷◌, ok, err, ℕ_eq}
use agent_pay.BudgetRepository.{reserve, consume, release}
use agent_pay.BudgetRepository.Operations.{Accounted, consume-Accounted, release-Accounted}
use agent_pay.BudgetRepository.Reserve.{reserve-Accounted}
use agent_pay.Store.{Db}

pub data Operation : Type 0 where
  reserving : ℕ → ℕ → ℤ → Operation
  consuming releasing : ℕ → Operation

-- A call that raises is rolled back.
unfoldable pub after : Db → Operation → Db
after db (reserving budget request a) =
    let (r, db') = reserve budget request a db in elim r [ ok _ ↦ db' | err _ ↦ db ]
after db (consuming reservation) =
    let (r, db') = consume reservation db in elim r [ ok _ ↦ db' | err _ ↦ db ]
after db (releasing reservation) =
    let (r, db') = release reservation db in elim r [ ok _ ↦ db' | err _ ↦ db ]

unfoldable pub after_all : Db → List Operation → Db
after_all db [] = db
after_all db (o ∷ os) = after_all (after db o) os

either {ℓ} :
    {A : Type ℓ} (P : Db → Type 0) (r : Result A) (s t : Db)
    → P s
    → P t
    → P (elim r [ ok _ ↦ s | err _ ↦ t ])
either P (ok a) s t h k = h
either P (err e) s t h k = k

after-Accounted : (db : Db) (o : Operation) → Accounted db → Accounted (after db o)
unfolding after
after-Accounted db (reserving b r a) h =
    either Accounted (reserve b r a db).0 _ db (reserve-Accounted b r a db h) h
after-Accounted db (consuming r) h =
    either Accounted (consume r db).0 _ db (consume-Accounted r db h) h
after-Accounted db (releasing r) h =
    either Accounted (release r db).0 _ db (release-Accounted r db h) h

-- Whatever reservations are made, consumed and released, in any order: every budget row shows what
-- its reservations hold and have used, and no budget passes its limit.
pub after_all-Accounted :
    (db : Db) (os : List Operation) → Accounted db → Accounted (after_all db os)
unfolding after_all
after_all-Accounted db [] h = h
after_all-Accounted db (o ∷ os) h = after_all-Accounted (after db o) os (after-Accounted db o h)
