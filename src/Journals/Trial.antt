-- ===== src/Journals/Trial.antt =====
-- The books of the database balance, journal by journal.
use agent_pay.Prelude.{
  ℕ, ℤ, pos, leb_ℤ, eq_ℤ_iff, int_laws, nat_eq, ◌==◌, List_eq, ℕ_eq, true, false, not, ◌&&◌, List,
  [], ◌∷◌, ◌++◌, any, sum_where, sum_where-append, Option, none, some, find_row, ◌≡◌, refl, arith,
  Bool-cases, inl, inr,
}
use mathlib.Core.List.{append-nil, append_assoc}
use agent_pay.Prelude.Errors.{Error.value_error}
use agent_pay.Prelude.Exec.{pure, gets, ◌>>=◌, ◌>>◌, update, raise_if}
use agent_pay.Prelude.Exec.Keeps.{
  Keeps, keeps_rules, pure-Keeps, OnReturn, bind_return, raise_if_return, weaken, update-Keeps,
}
use agent_pay.Journals.{
  Draft, draft_sum, posting, insert_posting, insert_postings, insert_journal, post_new,
  is_unbalanced, post_journal,
}
use agent_pay.Store.{Db, Journal, Posting, Side, Side_eq, Side.debit, Side.credit, Key_eq, fresh_id}

-- What one side of a journal adds up to.
abbrev pub side_sum : ℕ → Side → List Posting → ℤ
side_sum journal side = sum_where (λ p. p.journal_id == journal && p.side == side) (λ p. p.amount)

-- In every journal the debits equal the credits.
pub record IsBalanced (db : Db) : Type 0 where
  pub at_journal :
      (journal : ℕ)
      → side_sum journal debit db.ledger_postings ≡ side_sum journal credit db.ledger_postings

abbrev pub drafted : ℕ → List Draft → List Posting
drafted id [] = []
drafted id (p ∷ ps) = posting id p ∷ drafted id ps

side_sum-drafted_own :
    (id journal : ℕ) (side : Side) (ps : List Draft)
    → nat_eq id journal ≡ true
    → side_sum journal side (drafted id ps) ≡ draft_sum side ps
side_sum-drafted_own id journal side [] e = refl
side_sum-drafted_own id journal side (p ∷ ps) e = rw (e, side_sum-drafted_own id journal side ps e)

side_sum-drafted_other :
    (id journal : ℕ) (side : Side) (ps : List Draft)
    → nat_eq id journal ≡ false
    → side_sum journal side (drafted id ps) ≡ pos 0
side_sum-drafted_other id journal side [] e = refl
side_sum-drafted_other id journal side (p ∷ ps) e =
    rw (e, side_sum-drafted_other id journal side ps e) (omega int_laws)

drafted_balance :
    (id journal : ℕ) (ps : List Draft)
    → draft_sum debit ps ≡ draft_sum credit ps
    → side_sum journal debit (drafted id ps) ≡ side_sum journal credit (drafted id ps)
drafted_balance id journal ps e = elim (Bool-cases (nat_eq id journal)) [
  | inl own ↦
      rw
        (
          side_sum-drafted_own id journal debit ps own,
          side_sum-drafted_own id journal credit ps own,
        )
        e
  | inr other ↦ rw (
    side_sum-drafted_other id journal debit ps other,
    side_sum-drafted_other id journal credit ps other,
  )
]

abbrev pub with_postings : Db → List Posting → Db
with_postings db ps = record db { ledger_postings = db.ledger_postings ++ ps }

insert_posting-appends :
    (id : ℕ) (p : Draft) (db : Db)
    → OnReturn (λ s. s ≡ with_postings db (posting id p ∷ [])) (insert_posting id p db)
unfolding insert_posting ◌>>=◌ update raise_if
insert_posting-appends id p db = elim (Bool-cases (leb_ℤ p.amount (pos 0))) [
  | inl bad ↦ rw bad tt
  | inr good ↦ rw good refl
]

pub insert_postings-appends :
    (id : ℕ) (ps : List Draft) (db : Db)
    → OnReturn (λ s. s ≡ with_postings db (drafted id ps)) (insert_postings id ps db)
unfolding insert_postings pure
insert_postings-appends id [] db = rw append-nil
insert_postings-appends id (p ∷ ps) db =
    bind_return _ _ (insert_posting id p) _ db (insert_posting-appends id p db) (λ a t e.
      rw e (
        simp append_assoc at
          (insert_postings-appends id ps (with_postings db (posting id p ∷ [])))))

side_sum-with_postings :
    (db : Db) (ps : List Posting)
    → ((journal : ℕ) → side_sum journal debit ps ≡ side_sum journal credit ps)
    → IsBalanced db
    → IsBalanced (with_postings db ps)
side_sum-with_postings db ps e h = record {
  at_journal = λ journal. cc (
    sum_where-append (λ p. p.journal_id == journal && p.side == debit) (λ p. p.amount)
        db.ledger_postings ps,
    sum_where-append (λ p. p.journal_id == journal && p.side == credit) (λ p. p.amount)
        db.ledger_postings ps,
    h.at_journal journal,
    e journal,
  );
}

draft_sums : (ps : List Draft) → is_unbalanced ps ≡ false → draft_sum debit ps ≡ draft_sum credit ps
draft_sums ps h = ground (arith, eq_ℤ_iff (draft_sum debit ps) (draft_sum credit ps))

pub fresh_id-IsBalanced : Keeps IsBalanced fresh_id
unfolding fresh_id
fresh_id-IsBalanced = record { at = λ db h. record { at_journal = h.at_journal } }

-- A statement that writes no posting.
pub update-IsBalanced :
    (f : Db → Db)
    → ((db : Db) → (f db).ledger_postings ≡ db.ledger_postings)
    → Keeps IsBalanced (update f)
update-IsBalanced f same =
    update-Keeps f (λ db h. record { at_journal = λ journal. rw same (h.at_journal journal) })

module _ (ps : List Draft) (even : is_unbalanced ps ≡ false) where
  insert_postings-IsBalanced : (id : ℕ) → Keeps IsBalanced (insert_postings id ps)
  insert_postings-IsBalanced id = record {
    at = λ db h.
        weaken (λ s. s ≡ with_postings db (drafted id ps)) IsBalanced (insert_postings id ps db)
          (insert_postings-appends id ps db)
          (λ s e. rw e (
            side_sum-with_postings db (drafted id ps)
              (λ journal. drafted_balance id journal ps (draft_sums ps even)) h));
  }

  insert_journal-IsBalanced : (j : Journal) → Keeps IsBalanced (insert_journal j ps)
  unfolding insert_journal
  insert_journal-IsBalanced j =
      search (keeps_rules, fresh_id-IsBalanced, update-IsBalanced, insert_postings-IsBalanced) depth
        9

  post_new-IsBalanced :
      (o : Option (ℕ × Journal)) (j : Journal) → Keeps IsBalanced (post_new o j ps)
  unfolding post_new
  post_new-IsBalanced (some (id, k)) j = pure-Keeps id
  post_new-IsBalanced none j = insert_journal-IsBalanced j

pub post_journal-IsBalanced : (j : Journal) (ps : List Draft) → Keeps IsBalanced (post_journal j ps)
unfolding post_journal
post_journal-IsBalanced j ps = record {
  at = λ db h. raise_if_return IsBalanced _ _ _ db (λ even. (rest even).at db h);
}
  where
    rest :
        is_unbalanced ps ≡ false
        → Keeps IsBalanced (
            raise_if
              (any (λ p. not (p.currency == j.currency)) ps)
              (value_error "all postings must use the journal currency")
            >> (gets
                  (λ db. find_row (λ r. r.idempotency_key == j.idempotency_key) db.ledger_journals)
                >>= λ existing. post_new existing j ps))
    rest even = search (keeps_rules, post_new-IsBalanced ps even)

-- When `post_journal` returns, the debits of every journal equal its credits, as they did before.
pub post_journal-balances :
    (j : Journal) (ps : List Draft) (db : Db)
    → IsBalanced db
    → OnReturn IsBalanced (post_journal j ps db)
post_journal-balances j ps db h = (post_journal-IsBalanced j ps).at db h
