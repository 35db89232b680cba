-- ===== src/Store/Returns.antt =====
-- What methods in a session return, and what they leave in the database.
use mathlib.Core.Path.{◌≡◌, refl}
use agent_pay.Prelude.{Result, ok, err}
use agent_pay.Prelude.Exec.{Exec, gets, lift, ◌>>=◌}
use agent_pay.Prelude.Exec.Keeps.{Ensures}
use agent_pay.Store.Records.{Db}
use agent_pay.Store.Sessions.{Session, on_db, on_provider}

module _ {P A : Type 0} where
  pub on_db-Ensures :
      (Q : A → Db → Type 0) (m : Exec Db A) (s : Session P)
      → Ensures Q (m s.db)
      → Ensures (λ a t. Q a t.db) (on_db m s)
  unfolding on_db
  on_db-Ensures Q m s h = lifted (m s.db) h
    where
      lifted :
          (r : Result A × Db)
          → Ensures Q r
          → Ensures {S = Session P} (λ a t. Q a t.db) (r.0, record s { db = r.1 })
      lifted (ok a, d) k = k
      lifted (err e, d) k = tt

  pub lift-Ensures :
      {B : Type 0} (Q : B → Session P → Type 0) (r : Result A) (f : A → Exec (Session P) B)
      (s : Session P)
      → ((a : A) → r ≡ ok a → Ensures Q (f a s))
      → Ensures Q ((lift r >>= f) s)
  unfolding ◌>>=◌
  lift-Ensures Q (ok a) f s h = h a refl
  lift-Ensures Q (err e) f s h = tt

  pub on_provider-Ensures :
      {B : Type 0} (Q : B → Db → Type 0) (g : P → A × P) (f : A → Exec (Session P) B)
      (s : Session P)
      → ((a : A) (t : Session P) → t.db ≡ s.db → Ensures (λ b t. Q b t.db) (f a t))
      → Ensures (λ b t. Q b t.db) ((on_provider g >>= f) s)
  unfolding on_provider ◌>>=◌
  on_provider-Ensures Q g f s h = h _ _ refl

module _ {P A B : Type 0} where
  -- A query of the database.
  pub query-Ensures :
      (Q : B → Session P → Type 0) (q : Db → A) (f : A → Exec (Session P) B) (s : Session P)
      → Ensures Q (f (q s.db) s)
      → Ensures Q ((on_db (gets q) >>= f) s)
  unfolding on_db gets ◌>>=◌
  query-Ensures Q q f s h = h
