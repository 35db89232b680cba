-- ===== src/Store/Rules.antt =====
-- Invariants of the database under the methods that run in a session.
use mathlib.Core.Bool.{Bool, true, false}
use agent_pay.Prelude.{Option, none, some, Error, Result, ok, err, ◌≡◌, refl, ◌∙◌}
use agent_pay.Prelude.Exec.{Exec, pure, raise, lift, or_raise, choose, continue, ◌>>=◌, raise_if}
use agent_pay.Prelude.Exec.Keeps.{Keeps, OnReturn}
use agent_pay.Store.Records.{Db}
use agent_pay.Store.Sessions.{Session, on_db, on_provider, finish, unit_of_work}

-- The method keeps `I` in what the connection sees when it returns, and it commits nothing itself.
pub record KeepsDb {P A : Type 0} (I : Db → Type 0) (m : Exec (Session P) A) : Type 0 where
  pub at : (s : Session P) → I s.db → OnReturn (λ (t : Session P). I t.db) (m s)
  pub uncommitted : (s : Session P) → (m s).1.durable ≡ s.durable

lifted :
    {P A : Type 0} (I : Db → Type 0) (r : Result A × Db) (s : Session P)
    → OnReturn I r
    → OnReturn {S = Session P} (λ t. I t.db) (r.0, record s { db = r.1 })
lifted I (ok a, d) s h = h
lifted I (err e, d) s h = tt

module _ {P A : Type 0} {I : Db → Type 0} where
  pub on_db-KeepsDb : (m : Exec Db A) → Keeps I m → KeepsDb {P = P} I (on_db m)
  unfolding on_db
  on_db-KeepsDb m h = record {
    at = λ s i. lifted I (m s.db) s (h.at s.db i);
    uncommitted = λ s. refl;
  }

  pub on_provider-KeepsDb : (f : P → A × P) → KeepsDb I (on_provider f)
  unfolding on_provider
  on_provider-KeepsDb f = record { at = λ s i. i; uncommitted = λ s. refl }

  pub pure-KeepsDb : (a : A) → KeepsDb {P = P} I (pure a)
  unfolding pure
  pure-KeepsDb a = record { at = λ s h. h; uncommitted = λ s. refl }

  pub raise-KeepsDb : (e : Error) → KeepsDb {P = P} I (raise {A = A} e)
  unfolding raise
  raise-KeepsDb e = record { at = λ s h. tt; uncommitted = λ s. refl }

  pub lift-KeepsDb : (r : Result A) → KeepsDb {P = P} I (lift r)
  unfolding lift
  lift-KeepsDb (ok a) = record { at = λ s h. h; uncommitted = λ s. refl }
  lift-KeepsDb (err e) = record { at = λ s h. tt; uncommitted = λ s. refl }

  pub or_raise-KeepsDb : (o : Option A) (e : Error) → KeepsDb {P = P} I (or_raise o e)
  unfolding or_raise
  or_raise-KeepsDb none e = record { at = λ s h. tt; uncommitted = λ s. refl }
  or_raise-KeepsDb (some a) e = record { at = λ s h. h; uncommitted = λ s. refl }

  pub choose-KeepsDb :
      (b : Bool) (m n : Exec (Session P) A) → KeepsDb I m → KeepsDb I n → KeepsDb I (choose b m n)
  unfolding choose
  choose-KeepsDb true m n h k = h
  choose-KeepsDb false m n h k = k

pub raise_if-KeepsDb :
    {P : Type 0} {I : Db → Type 0} (b : Bool) (e : Error) → KeepsDb {P = P} I (raise_if b e)
unfolding raise_if
raise_if-KeepsDb true e = record { at = λ s h. tt; uncommitted = λ s. refl }
raise_if-KeepsDb false e = record { at = λ s h. h; uncommitted = λ s. refl }

module _ {P A B : Type 0} (I : Db → Type 0) (f : A → Exec (Session P) B)
    (k : (a : A) → KeepsDb I (f a)) where
  continue-Keeps :
      (r : Result A × Session P)
      → OnReturn (λ (t : Session P). I t.db) r
      → OnReturn (λ (t : Session P). I t.db) (continue r.0 f r.1)
  continue-Keeps (ok a, s) h = (k a).at s h
  continue-Keeps (err e, s) h = tt

  continue-uncommitted : (r : Result A × Session P) → (continue r.0 f r.1).1.durable ≡ r.1.durable
  continue-uncommitted (ok a, s) = (k a).uncommitted s
  continue-uncommitted (err e, s) = refl

pub bind-KeepsDb :
    {P A B : Type 0} {I : Db → Type 0} (m : Exec (Session P) A) (f : A → Exec (Session P) B)
    → KeepsDb I m
    → ((a : A) → KeepsDb I (f a))
    → KeepsDb I (m >>= f)
unfolding ◌>>=◌
bind-KeepsDb {I} m f h k = record {
  at = λ s i. continue-Keeps I f k (m s) (h.at s i);
  uncommitted = λ s. continue-uncommitted I f k (m s) ∙ h.uncommitted s;
}

pub ruleset session_rules = (
  on_db-KeepsDb, on_provider-KeepsDb, pure-KeepsDb, raise-KeepsDb, lift-KeepsDb, or_raise-KeepsDb,
  choose-KeepsDb, raise_if-KeepsDb, bind-KeepsDb,
)

ended :
    {P A : Type 0} (I : Db → Type 0) (s : Session P) (r : Result A × Session P)
    → I s.durable
    → OnReturn (λ (t : Session P). I t.db) r
    → r.1.durable ≡ s.durable
    → I (finish r.0 r.1).1.durable × I (finish r.0 r.1).1.db
ended I s (ok a, t) d p e = (p, p)
ended I s (err x, t) d p e = rw e (d, d)

-- A unit of work leaves the invariant in what it sees and in what others see, also when its body
-- raises: a raise takes the writes back.
pub unit_of_work-keeps :
    {P A : Type 0} (I : Db → Type 0) (m : Exec (Session P) A)
    → KeepsDb I m
    → (s : Session P) → I s.durable
    → I s.db
    → I (unit_of_work m s).1.durable × I (unit_of_work m s).1.db
unfolding unit_of_work
unit_of_work-keeps I m h s d i = ended I s (m s) d (h.at s i) (h.uncommitted s)

raised-rolled_back :
    {P A : Type 0} (r : Result A × Session P) (e : Error) (d : Db)
    → r.1.durable ≡ d
    → (finish r.0 r.1).0 ≡ err e
    → ((finish r.0 r.1).1.durable ≡ d) × ((finish r.0 r.1).1.db ≡ d)
raised-rolled_back (ok a, t) e d same h = cc
raised-rolled_back (err x, t) e d same h = (same, same)

-- A unit of work that raises leaves the database as it was before it began.
pub unit_of_work-rollback :
    {P A : Type 0} (I : Db → Type 0) (m : Exec (Session P) A) (s : Session P) (e : Error)
    → KeepsDb I m
    → (unit_of_work m s).0 ≡ err e
    → ((unit_of_work m s).1.durable ≡ s.durable) × ((unit_of_work m s).1.db ≡ s.durable)
unfolding unit_of_work
unit_of_work-rollback I m s e h raised =
    raised-rolled_back (m s) e s.durable (h.uncommitted s) raised
