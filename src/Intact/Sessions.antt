-- ===== src/Intact/Sessions.antt =====
-- Intact databases under the methods that run units of work.
use agent_pay.Prelude.{Result, ok, err, Error, Bool, true, false}
use agent_pay.Prelude.Exec.{Exec, continue, ◌>>=◌, pure, gets, lift, raise_if}
use agent_pay.Intact.{Intact}
use agent_pay.Store.{Db, Session, KeepsDb, on_db, on_provider, unit_of_work, unit_of_work-keeps}

-- Both what a session sees and what others see is intact.
abbrev pub Sound : {P : Type 0} → Session P → Type 0
Sound s = Intact s.durable × Intact s.db

-- An action that leaves a session sound also when it raises.
pub record Safe {P A : Type 0} (m : Exec (Session P) A) : Type 0 where
  pub at : (s : Session P) → Sound s → Sound (m s).1

pub unit_of_work-Safe :
    {P A : Type 0} (m : Exec (Session P) A) → KeepsDb Intact m → Safe (unit_of_work m)
unit_of_work-Safe m h = record { at = λ s i. unit_of_work-keeps Intact m h s i.0 i.1 }

pub bind-Safe :
    {P A B : Type 0} (m : Exec (Session P) A) (f : A → Exec (Session P) B)
    → Safe m
    → ((a : A) → Safe (f a))
    → Safe (m >>= f)
unfolding ◌>>=◌
bind-Safe m f h k = record { at = λ s i. go (m s) (h.at s i) }
  where
    go : (r : Result _ × Session _) → Sound r.1 → Sound (continue r.0 f r.1).1
    go (ok a, t) i = (k a).at t i
    go (err e, t) i = i

pub gets-Safe : {P A : Type 0} (f : Db → A) → Safe {P = P} (on_db (gets f))
unfolding on_db gets
gets-Safe f = record { at = λ s i. i }

pub on_provider-Safe : {P A : Type 0} (f : P → A × P) → Safe (on_provider f)
unfolding on_provider
on_provider-Safe f = record { at = λ s i. i }

pub pure-Safe : {P A : Type 0} (a : A) → Safe {P = P} (pure a)
unfolding pure
pure-Safe a = record { at = λ s i. i }

pub lift-Safe : {P A : Type 0} (r : Result A) → Safe {P = P} (lift r)
unfolding lift
lift-Safe r = record { at = λ s i. i }

pub raise_if-Safe : {P : Type 0} (b : Bool) (e : Error) → Safe {P = P} (raise_if b e)
unfolding raise_if
raise_if-Safe true e = record { at = λ s i. i }
raise_if-Safe false e = record { at = λ s i. i }

pub ruleset safe_rules =
    (unit_of_work-Safe, bind-Safe, gets-Safe, on_provider-Safe, pure-Safe, raise_if-Safe)
