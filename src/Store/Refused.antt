-- ===== src/Store/Refused.antt =====
-- Units of work that never return leave everything as it was.
use mathlib.Core.Path.{◌≡◌}
use agent_pay.Prelude.Errors.{Error, Result, ok, err}
use agent_pay.Prelude.Exec.{Exec}
use agent_pay.Prelude.Exec.Raises.{Raises}
use agent_pay.Store.Records.{Db}
use agent_pay.Store.Sessions.{Session, finish, on_db, unit_of_work}

-- Nothing is uncommitted.
abbrev pub IsClean : {P : Type 0} → Session P → Type 0
IsClean s = s.durable ≡ s.db

module _ {P A : Type 0} where
  pub unit_of_work-Raises :
      (m : Exec Db A) (s : Session P)
      → Raises m
      → IsClean s
      → (e : Error) × (unit_of_work (on_db m) s ≡ (err e, s))
  unfolding unit_of_work on_db
  unit_of_work-Raises m s h same = go (m s.db) (h.at s.db)
    where
      go :
          (r : Result A × Db)
          → (e : Error) × (r.0 ≡ err e)
          → (e : Error) × (finish r.0 (record s { db = r.1 }) ≡ (err e, s))
      go (ok a, t) (e, h) = absurd (cc)
      go (err x, t) h = (x, λ j. (err x, record s { db = same j }))
