-- ===== src/WorkerRunner/Sound.antt =====
-- The worker over every pending payment.
use agent_pay.Prelude.{
  ℕ, suc, Text, List, [], ◌∷◌, Option, none, some, Error, Result, ok, err, ◌≡◌, refl, ◌∙◌,
}
use agent_pay.Prelude.Exec.{Exec, gets, or_raise, continue, ◌>>=◌}
use agent_pay.Intact.Sessions.{Safe, Sound, safe_rules, bind-Safe, pure-Safe, lift-Safe}
use agent_pay.Prelude.Exec.Keeps.{keeps_rules}
use agent_pay.Provider.{MockProvider, mock, reference_for}
use agent_pay.Store.{Key, Key_eq, Session, session_rules, Db, on_db}
use agent_pay.Worker.Keeping.{process_one-Safe}
use agent_pay.WorkerRunner.{payment_accounts, process_payments, run_once}

reads-Safe : {P A : Type 0} (m : Exec Db A) → ((db : Db) → (m db).1 ≡ db) → Safe {P = P} (on_db m)
unfolding on_db
reads-Safe m h = record { at = λ s i. (i.0, rw (h s.db) i.1) }

bind-reads :
    {A B : Type 0} (m : Exec Db A) (f : A → Exec Db B)
    → ((db : Db) → (m db).1 ≡ db)
    → ((a : A) (db : Db) → (f a db).1 ≡ db)
    → (db : Db) → ((m >>= f) db).1 ≡ db
unfolding ◌>>=◌
bind-reads m f h k db = go (m db) (h db)
  where
    go : (r : Result _ × Db) → r.1 ≡ db → (continue r.0 f r.1).1 ≡ db
    go (ok a, t) e = k a t ∙ e
    go (err x, t) e = e

or_raise-reads : {A : Type 0} (o : Option A) (e : Error) (db : Db) → (or_raise o e db).1 ≡ db
unfolding or_raise
or_raise-reads none e db = refl
or_raise-reads (some a) e db = refl

gets-reads : {A : Type 0} (f : Db → A) (db : Db) → (gets f db).1 ≡ db
unfolding gets
gets-reads f db = refl

payment_accounts-reads : (payment : ℕ) (db : Db) → (payment_accounts payment db).1 ≡ db
unfolding payment_accounts
payment_accounts-reads payment = search (bind-reads, gets-reads, or_raise-reads) depth 9

module _ (reference : Key → Text) where
  process_payments-Safe : (payments : List ℕ) (n : ℕ) → Safe (process_payments reference payments n)
  unfolding process_payments
  process_payments-Safe [] n = pure-Safe n
  process_payments-Safe (p ∷ t) n =
      bind-Safe _ _ (reads-Safe (payment_accounts p) (payment_accounts-reads p)) (λ to.
        bind-Safe _ _ (process_one-Safe (mock reference) (some reference_for) p to)
          (λ status. process_payments-Safe t (suc n)))

  run_once-Safe : (name : Option Text) (limit : ℕ) → Safe (run_once reference name limit)
  unfolding run_once
  run_once-Safe name limit =
      search (safe_rules, session_rules, lift-Safe, keeps_rules, process_payments-Safe) depth 14

  -- When the database is intact, as the connection and as others see it, it is intact after run_once,
  -- whatever the limit, the named outcome and the payments, also when a payment ends the run with an
  -- error.
  pub run_once-Intact :
      (name : Option Text) (limit : ℕ) (s : Session (MockProvider Key Text))
      → Sound s
      → Sound (run_once reference name limit s).1
  run_once-Intact name limit s = (run_once-Safe name limit).at s
