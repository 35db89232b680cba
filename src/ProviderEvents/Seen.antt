-- ===== src/ProviderEvents/Seen.antt =====
-- A recorded provider event stays recorded.
use agent_pay.Prelude.{
  ℕ, ℤ, Text, Bool, true, false, Option, none, some, List, [], ◌∷◌, Table, ◌≡◌, refl, ◌∙◌, modify,
  find_row, append_row, find_row-append_row, arith, ℕ_eq, List_eq,
}
use agent_pay.Prelude.Exec.{update}
use agent_pay.Prelude.Exec.Keeps.{Keeps, keeps_rules, update-Keeps}
use agent_pay.BudgetRepository.{update_budget, consume, release}
use agent_pay.Journals.{
  Draft, insert_posting, insert_postings, insert_journal, post_new, post_journal,
}
use agent_pay.Lifecycle.{Accounts, set_transaction}
use agent_pay.ProviderEvents.{is_event, insert_event, record_event}
use agent_pay.Resolution.{
  Target, mark_processed, end_operation, end_payment, insert_capture, settle_charge, release_any,
  succeed, fail, apply, resolve_event,
}
use agent_pay.Json.{Json}
use agent_pay.Store.{Db, Journal, ProviderEvent, ProcessingStatus_eq, Transaction, Budget, fresh_id}

abbrev is_found : {V : Type 0} → Option (ℕ × V) → Bool
is_found none = false
is_found (some v) = true

-- The table has a row for the event.
abbrev pub seen : Text → Text → Db → Bool
seen provider_name event_id db =
    is_found (find_row (is_event provider_name event_id) db.provider_events)

is_found-modify :
    {V : Type 0} (p : V → Bool) (k : ℕ) (f : V → V) (t : Table V)
    → ((v : V) → p (f v) ≡ p v)
    → is_found (find_row p (modify k f t)) ≡ is_found (find_row p t)
unfolding find_row modify
is_found-modify p k f [] same = refl
is_found-modify p k f ((i, v) ∷ t) same = ground (arith, same v, is_found-modify p k f t same)

module _ (provider_name event_id : Text) where
  abbrev pub Seen : Db → Type 0
  Seen db = seen provider_name event_id db ≡ true

  -- A statement that writes no provider event.
  pub update-Seen :
      (f : Db → Db)
      → ((db : Db) → (f db).provider_events ≡ db.provider_events)
      → Keeps Seen (update f)
  update-Seen f same = update-Keeps f (λ db h. rw same h)

  -- A statement that writes neither the provider nor the id of an event.
  pub modify-Seen :
      (k : ℕ) (f : ℕ → ProviderEvent → ProviderEvent)
      → ((n : ℕ) (e : ProviderEvent) → (f n e).provider_name ≡ e.provider_name)
      → ((n : ℕ) (e : ProviderEvent) → (f n e).provider_event_id ≡ e.provider_event_id)
      → Keeps Seen
          (update (λ db. record db { provider_events = modify k (f db.now) db.provider_events }))
  modify-Seen k f name id = update-Keeps _ (λ db h.
      is_found-modify (is_event provider_name event_id) k (f db.now) db.provider_events
        (λ e. rw (name, id) refl)
      ∙ h)

  fresh_id-Seen : Keeps Seen fresh_id
  unfolding fresh_id
  fresh_id-Seen = record { at = λ db h. h }

  insert_event-Seen :
      (o : Option (ℕ × ProviderEvent)) (e : ProviderEvent) → Keeps Seen (insert_event o e)
  unfolding insert_event
  insert_event-Seen (some x) e = search keeps_rules
  insert_event-Seen none e = search (keeps_rules, fresh_id-Seen, update-Keeps, appended) depth 9
    where
      appended :
          (id : ℕ) (db : Db)
          → Seen db
          → Seen (record db { provider_events = append_row id e db.provider_events })
      appended id db h =
          ground
            (arith, find_row-append_row (is_event provider_name event_id) id e db.provider_events)

  pub record_event-Seen :
      (digest : Json → Text) (n i t : Text) (p : Json) (b : Bool)
      → Keeps Seen (record_event digest n i t p b)
  unfolding record_event
  record_event-Seen digest n i t p b = search (keeps_rules, insert_event-Seen) depth 9

  insert_posting-Seen : (id : ℕ) (p : Draft) → Keeps Seen (insert_posting id p)
  unfolding insert_posting
  insert_posting-Seen id p = search (keeps_rules, update-Seen) depth 9

  insert_postings-Seen : (id : ℕ) (ps : List Draft) → Keeps Seen (insert_postings id ps)
  unfolding insert_postings
  insert_postings-Seen id [] = search keeps_rules
  insert_postings-Seen id (p ∷ ps) =
      search (keeps_rules, insert_posting-Seen id p, insert_postings-Seen id ps) depth 9

  post_new-Seen :
      (o : Option (ℕ × Journal)) (j : Journal) (ps : List Draft) → Keeps Seen (post_new o j ps)
  unfolding post_new insert_journal
  post_new-Seen (some (id, k)) j ps = search keeps_rules
  post_new-Seen none j ps =
      search (keeps_rules, fresh_id-Seen, update-Seen, insert_postings-Seen) depth 9

  post_journal-Seen : (j : Journal) (ps : List Draft) → Keeps Seen (post_journal j ps)
  unfolding post_journal
  post_journal-Seen j ps = search (keeps_rules, post_new-Seen) depth 9

  update_budget-Seen : (b : ℕ) (f : Budget → Budget) → Keeps Seen (update_budget b f)
  unfolding update_budget
  update_budget-Seen b f = search (keeps_rules, update-Seen) depth 9

  consume-Seen : (r : ℕ) → Keeps Seen (consume r)
  unfolding consume
  consume-Seen r = search (keeps_rules, update-Seen, update_budget-Seen) depth 12

  release-Seen : (r : ℕ) → Keeps Seen (release r)
  unfolding release
  release-Seen r = search (keeps_rules, update-Seen, update_budget-Seen) depth 12

  insert_capture-Seen :
      (o : Option (ℕ × Transaction)) (p : ℕ) (a : ℤ) (c : Text) (r : Option Text)
      → Keeps Seen (insert_capture o p a c r)
  unfolding insert_capture
  insert_capture-Seen none p a c r = search (keeps_rules, fresh_id-Seen, update-Seen) depth 9
  insert_capture-Seen (some (id, t)) p a c r = search keeps_rules

  settle_charge-Seen :
      (t : Target) (r : Option Text) (to : Accounts) → Keeps Seen (settle_charge t r to)
  unfolding settle_charge set_transaction
  settle_charge-Seen t r to =
      search (keeps_rules, consume-Seen, insert_capture-Seen, post_journal-Seen, update-Seen) depth
        16

  release_any-Seen : (o : Option ℕ) → Keeps Seen (release_any o)
  unfolding release_any
  release_any-Seen none = search keeps_rules
  release_any-Seen (some r) = release-Seen r

  succeed-Seen :
      (id : ℕ) (t : Target) (r : Option Text) (to : Accounts) → Keeps Seen (succeed id t r to)
  unfolding succeed end_operation end_payment
  succeed-Seen id t r to = search (keeps_rules, update-Seen, settle_charge-Seen) depth 12

  fail-Seen : (id : ℕ) (t : Target) (r : Option Text) → Keeps Seen (fail id t r)
  unfolding fail end_operation end_payment
  fail-Seen id t r = search (keeps_rules, update-Seen, release_any-Seen) depth 12

  mark_processed-Seen : (e : ℕ) → Keeps Seen (mark_processed e)
  unfolding mark_processed
  mark_processed-Seen e = modify-Seen e _ (λ n e. refl) (λ n e. refl)

  apply-Seen :
      (e id : ℕ) (t : Target) (x : Text) (r : Option Text) (to : Accounts)
      → Keeps Seen (apply e id t x r to)
  unfolding apply
  apply-Seen e id t x r to =
      search (keeps_rules, mark_processed-Seen, succeed-Seen, fail-Seen) depth 16

  pub resolve_event-Seen :
      (e id : ℕ) (x : Text) (r : Option Text) (to : Accounts)
      → Keeps Seen (resolve_event e id x r to)
  unfolding resolve_event
  resolve_event-Seen e id x r to = search (keeps_rules, apply-Seen) depth 16
