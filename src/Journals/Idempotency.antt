-- ===== src/Journals/Idempotency.antt =====
-- A journal is posted once for each idempotency key.
use agent_pay.Prelude.{
  ℕ, ◌==◌, List_eq, ℕ_eq, Bool, false, not, List, any, Option, none, some, find_row,
  find_row-append_row, append_row, ◌≡◌, refl, ap, ◌∙◌, ok, beq_refl,
}
use agent_pay.Prelude.Exec.{pure, gets, ◌>>=◌, update, raise_if}
use agent_pay.Prelude.Exec.Keeps.{Ensures, bind-Ensures, raise_if-Ensures, weaken, weaken-Ensures}
use agent_pay.Journals.{
  Draft, insert_postings, insert_journal, post_new, is_unbalanced, post_journal,
}
use agent_pay.Journals.Trial.{insert_postings-appends}
use agent_pay.Store.{Db, Journal, Key, Key_eq, fresh_id}

abbrev pub journal_at : Key → Db → Option (ℕ × Journal)
journal_at key db = find_row (λ r. r.idempotency_key == key) db.ledger_journals

abbrev mixed : Journal → List Draft → Bool
mixed j ps = any (λ p. not (p.currency == j.currency)) ps

-- Where the key is taken the call returns the journal that has it, and writes nothing.
pub post_journal-replays :
    (j : Journal) (ps : List Draft) (db : Db) (id : ℕ) (k : Journal)
    → is_unbalanced ps ≡ false
    → mixed j ps ≡ false
    → journal_at j.idempotency_key db ≡ some (id, k)
    → post_journal j ps db ≡ (ok id, db)
unfolding post_journal post_new ◌>>=◌ raise_if
post_journal-replays j ps db id k even one taken = rw (even, one, taken)

insert_journal-records :
    (j : Journal) (ps : List Draft) (db : Db)
    → journal_at j.idempotency_key db ≡ none
    → Ensures (λ id s. journal_at j.idempotency_key s ≡ some (id, j)) (insert_journal j ps db)
unfolding insert_journal fresh_id update pure
insert_journal-records j ps db new =
    bind-Ensures (λ id s. s.ledger_journals ≡ db.ledger_journals) _ fresh_id _ db refl
      (λ id t same.
        bind-Ensures (λ u s. s.ledger_journals ≡ append_row id j db.ledger_journals) _
          (update (λ d. record d { ledger_journals = append_row id j d.ledger_journals })) _ t
          (ap (append_row id j) same)
          (λ u w grown.
            bind-Ensures (λ v s. s.ledger_journals ≡ append_row id j db.ledger_journals) _
              (insert_postings id ps) _ w
              (weaken _ _ (insert_postings id ps w) (insert_postings-appends id ps w)
                (λ s e. ap (λ (d : Db). d.ledger_journals) e ∙ grown))
              (λ v x now. rw (now, find_row-append_row, new) (rw beq_refl))))

post_new-records :
    (j : Journal) (ps : List Draft) (db : Db) (o : Option (ℕ × Journal))
    → journal_at j.idempotency_key db ≡ o
    → Ensures
        (λ id s. (k : Journal) × (journal_at j.idempotency_key s ≡ some (id, k)))
        (post_new o j ps db)
unfolding post_new pure
post_new-records j ps db (some (id, k)) e = (k, e)
post_new-records j ps db none e =
    weaken-Ensures _ _ (insert_journal j ps db) (insert_journal-records j ps db e)
      (λ id s at. (j, at))

-- A call that has returned can be repeated: it returns the same journal and writes nothing.
pub post_journal-twice :
    (j : Journal) (ps : List Draft) (db : Db)
    → Ensures (λ id s. post_journal j ps s ≡ (ok id, s)) (post_journal j ps db)
unfolding post_journal gets ◌>>=◌
post_journal-twice j ps db = raise_if-Ensures _ _ _ _ db (λ even.
    raise_if-Ensures _ _ _ _ db (λ one.
      weaken-Ensures _ _ (post_new (journal_at j.idempotency_key db) j ps db)
        (post_new-records j ps db (journal_at j.idempotency_key db) refl)
        (λ id s at. post_journal-replays j ps s id at.0 even one at.1)))
