-- ===== src/Store/Nested.antt =====
-- Units of work inside units of work: the inner one commits, and the outer one has nothing left to
-- do.
use mathlib.Core.Path.{◌≡◌, refl, ◌∙◌}
use agent_pay.Prelude.{Error, Result, ok, err}
use agent_pay.Prelude.Exec.{Exec, pure, continue, ◌>>=◌}
use agent_pay.Prelude.Exec.Keeps.{OnReturn}
use agent_pay.Store.Records.{Db}
use agent_pay.Store.Sessions.{Session, finish, unit_of_work}
use agent_pay.Store.Rules.{KeepsDb}

abbrev OnRaise : {S A : Type 0} → (S → Type 0) → Result A × S → Type 0
OnRaise P (ok a, s) = Unit
OnRaise P (err e, s) = P s

-- The method keeps `I` in what the connection sees when it returns, and has committed nothing when it
-- raises.
pub record Ends {P A : Type 0} (I : Db → Type 0) (m : Exec (Session P) A) : Type 0 where
  pub at : (s : Session P) → I s.db → OnReturn (λ (t : Session P). I t.db) (m s)
  pub raised : (s : Session P) → OnRaise (λ (t : Session P). t.durable ≡ s.durable) (m s)

module _ {P A : Type 0} where
  on_raise :
      (s : Session P) (r : Result A × Session P)
      → r.1.durable ≡ s.durable
      → OnRaise (λ (t : Session P). t.durable ≡ s.durable) r
  on_raise s (ok a, t) e = tt
  on_raise s (err x, t) e = e

  ended_raise :
      (s : Session P) (r : Result A × Session P)
      → r.1.durable ≡ s.durable
      → OnRaise (λ (t : Session P). t.durable ≡ s.durable) (finish r.0 r.1)
  ended_raise s (ok a, t) e = tt
  ended_raise s (err x, t) e = e

  moved :
      (d e : Db) (r : Result A × Session P)
      → d ≡ e
      → OnRaise (λ (t : Session P). t.durable ≡ d) r
      → OnRaise (λ (t : Session P). t.durable ≡ e) r
  moved d e (ok a, t) same h = tt
  moved d e (err x, t) same h = h ∙ same

  ended :
      (I : Db → Type 0) (s : Session P) (r : Result A × Session P)
      → OnReturn (λ (t : Session P). I t.db) r
      → r.1.durable ≡ s.durable
      → OnReturn (λ (t : Session P). I t.db) (finish r.0 r.1)
  ended I s (ok a, t) h e = h
  ended I s (err x, t) h e = tt

module _ {P A B : Type 0} where
  returned_raise :
      (s : Session P) (r : Result A × Session P) (f : A → B)
      → OnRaise (λ (t : Session P). t.durable ≡ s.durable) r
      → OnRaise (λ (t : Session P). t.durable ≡ s.durable) (continue r.0 (λ a. pure (f a)) r.1)
  unfolding pure
  returned_raise s (ok a, t) f h = tt
  returned_raise s (err e, t) f h = h

  returned :
      (I : Db → Type 0) (r : Result A × Session P) (f : A → B)
      → OnReturn (λ (t : Session P). I t.db) r
      → OnReturn (λ (t : Session P). I t.db) (continue r.0 (λ a. pure (f a)) r.1)
  unfolding pure
  returned I (ok a, t) f h = h
  returned I (err e, t) f h = tt

module _ {P A : Type 0} {I : Db → Type 0} where
  pub Ends-of_KeepsDb : (m : Exec (Session P) A) → KeepsDb I m → Ends I m
  Ends-of_KeepsDb m h = record { at = h.at; raised = λ s. on_raise s (m s) (h.uncommitted s) }

  pub unit_of_work-Ends : (m : Exec (Session P) A) → KeepsDb I m → Ends I (unit_of_work m)
  unfolding unit_of_work
  unit_of_work-Ends m h = record {
    at = λ s i. ended I s (m s) (h.at s i) (h.uncommitted s);
    raised = λ s. ended_raise s (m s) (h.uncommitted s);
  }

module _ {P A B : Type 0} {I : Db → Type 0} where
  continue-Ends :
      (s : Session P) (r : Result A × Session P) (f : A → Exec (Session P) B)
      → ((a : A) → Ends I (f a))
      → OnReturn (λ (t : Session P). I t.db) r
      → OnReturn (λ (t : Session P). I t.db) (continue r.0 f r.1)
  continue-Ends s (ok a, t) f k h = (k a).at t h
  continue-Ends s (err e, t) f k h = tt

  continue_raise :
      (s : Session P) (r : Result A × Session P) (f : A → Exec (Session P) B)
      → ((a : A) → Ends I (f a))
      → r.1.durable ≡ s.durable
      → OnRaise (λ (t : Session P). t.durable ≡ s.durable) (continue r.0 f r.1)
  continue_raise s (ok a, t) f k e = moved _ _ (f a t) e ((k a).raised t)
  continue_raise s (err x, t) f k e = e

  -- What stands before an inner unit of work commits nothing.
  pub bind-Ends :
      (m : Exec (Session P) A) (f : A → Exec (Session P) B)
      → KeepsDb I m
      → ((a : A) → Ends I (f a))
      → Ends I (m >>= f)
  unfolding ◌>>=◌
  bind-Ends m f h k = record {
    at = λ s i. continue-Ends s (m s) f k (h.at s i);
    raised = λ s. continue_raise s (m s) f k (h.uncommitted s);
  }

  -- What stands after an inner unit of work only returns.
  pub return-Ends : (m : Exec (Session P) A) (f : A → B) → Ends I m → Ends I (m >>= λ a. pure (f a))
  unfolding ◌>>=◌
  return-Ends m f h = record {
    at = λ s i. returned I (m s) f (h.at s i);
    raised = λ s. returned_raise s (m s) f (h.raised s);
  }

-- What the outer unit of work leaves behind.
module _ {P A : Type 0} (I : Db → Type 0) where
  outer :
      (s : Session P) (r : Result A × Session P)
      → I s.durable
      → OnReturn (λ (t : Session P). I t.db) r
      → OnRaise (λ (t : Session P). t.durable ≡ s.durable) r
      → I (finish r.0 r.1).1.durable × I (finish r.0 r.1).1.db
  outer s (ok a, t) d h k = (h, h)
  outer s (err e, t) d h k = rw k (d, d)

  pub unit_of_work-Ends-keeps :
      (m : Exec (Session P) A)
      → Ends I m
      → (s : Session P) → I s.durable
      → I s.db
      → I (unit_of_work m s).1.durable × I (unit_of_work m s).1.db
  unfolding unit_of_work
  unit_of_work-Ends-keeps m h s d i = outer s (m s) d (h.at s i) (h.raised s)

  outer_raise :
      (s : Session P) (r : Result A × Session P) (e : Error)
      → OnRaise (λ (t : Session P). t.durable ≡ s.durable) r
      → (finish r.0 r.1).0 ≡ err e
      → ((finish r.0 r.1).1.durable ≡ s.durable) × ((finish r.0 r.1).1.db ≡ s.durable)
  outer_raise s (ok a, t) e k h = cc
  outer_raise s (err x, t) e k h = (k, k)

  pub unit_of_work-Ends-rollback :
      (m : Exec (Session P) A) (s : Session P) (e : Error)
      → Ends I m
      → (unit_of_work m s).0 ≡ err e
      → ((unit_of_work m s).1.durable ≡ s.durable) × ((unit_of_work m s).1.db ≡ s.durable)
  unfolding unit_of_work
  unit_of_work-Ends-rollback m s e h raised = outer_raise s (m s) e (h.raised s) raised

module _ {P A : Type 0} where
  finished : (r : Result A × Session P) → (finish r.0 r.1).1.durable ≡ (finish r.0 r.1).1.db
  finished (ok a, t) = refl
  finished (err e, t) = refl

  -- After a unit of work, others see what the connection sees.
  pub unit_of_work-committed :
      (m : Exec (Session P) A) (s : Session P)
      → (unit_of_work m s).1.durable ≡ (unit_of_work m s).1.db
  unfolding unit_of_work
  unit_of_work-committed m s = finished (m s)
