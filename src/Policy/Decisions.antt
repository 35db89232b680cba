-- ===== src/Policy/Decisions.antt =====
-- A policy's decision against what the policy permits.
use agent_pay.Prelude.{
  ℕ, ◌+◌, ◌≤◌, ◌<◌, ℤ, pos, ◌≤ℤ◌, ◌<ℤ◌, ltb_ℤ, leb_ℤ, leb, Text, upper, lower, strip, List_eq, ℕ_eq,
  Bool, true, false, Option, none, some, List, [], ◌∷◌, ◌++◌, elem, ◌≡◌, ◌≢◌, ◌↔◌, ◌⊎◌, refl, sym,
  ◌∙◌, ap, arith, Bool-cases, inl, inr, if◌then◌else◌,
}
use agent_pay.Domain.{Decision, Timestamp, PaymentIntent}
use agent_pay.Policy.{
  SpendingPolicy, PolicyDecision, Reason, Reason.amount_exceeds_transaction_limit, reason_if,
  time_in_window, category_of, region_of, instrument_of, is_denied, is_outside, screened,
  weekday_reasons, window_reasons, denials, is_above, decide_on, unconfigured, evaluate_with_trace,
  evaluate,
}

-- An attribute passes a deny list and, where there is one, an allow list.
pub record Permitted (denied : List Text) (allowed : Option (List Text)) (t : Option Text)
    : Type 0 where
  pub not_denied : (x : Text) → t ≡ some x → elem x denied ≡ false
  pub listed : (l : List Text) → allowed ≡ some l → (x : Text) × (t ≡ some x) × (elem x l ≡ true)

-- The request's weekday is one of the allowed ones.
abbrev pub OnWeekday : Option (List ℕ) → Option Timestamp → Type 0
OnWeekday none at = Unit
OnWeekday (some days) none = ⊥
OnWeekday (some days) (some at) = elem at.weekday days ≡ true

-- The request's time of day is in the window that the bounds leave.
abbrev pub InWindow : Option ℕ → Option ℕ → Option Timestamp → Type 0
InWindow none none at = Unit
InWindow (some start) end none = ⊥
InWindow none (some end) none = ⊥
InWindow (some start) none (some at) = start ≤ at.time
InWindow none (some end) (some at) = at.time ≤ end
InWindow (some start) (some end) (some at) = time_in_window at.time (some start) (some end) ≡ true

abbrev grade : Option ℤ → Option ℤ → ℤ → Decision
grade approval notify amount =
    if is_above amount approval
    then Decision.require_approval
    else if is_above amount notify
    then Decision.allow_notify
    else Decision.allow_auto

graded_allows :
    (approval notify : Option ℤ) (amount : ℤ) → grade approval notify amount ≢ Decision.deny
graded_allows approval notify amount = by_tests (is_above amount approval) (is_above amount notify)
  where
    by_tests :
        (b c : Bool)
        → (if b
            then Decision.require_approval
            else if c
            then Decision.allow_notify
            else Decision.allow_auto)
          ≢ Decision.deny
    by_tests true c = λ h. cc
    by_tests false true = λ h. cc
    by_tests false false = λ h. cc

pub record Permits (p : SpendingPolicy) (intent : PaymentIntent) (stated : Option Text)
    : Type 0 where
  pub configured : pos 0 <ℤ p.per_transaction_limit
  pub within : intent.amount.value ≤ℤ p.per_transaction_limit
  pub currency :
      Permitted p.denied_currencies p.allowed_currencies
        (some (upper (strip intent.amount.currency)))
  pub category : Permitted p.denied_categories p.allowed_categories (category_of intent stated)
  pub domain :
      Permitted p.denied_domains p.allowed_domains (some (lower (strip intent.merchant_domain)))
  pub region : Permitted p.denied_regions p.allowed_regions (region_of intent)
  pub instrument :
      Permitted p.denied_instrument_classes p.allowed_instrument_classes (instrument_of intent)
  pub weekday : OnWeekday p.allowed_weekdays intent.requested_at
  pub window : InWindow p.start_time p.end_time intent.requested_at

-- The decision on a permitted payment, by its amount.
abbrev pub graded : SpendingPolicy → ℤ → Decision
graded p amount =
    if is_above amount p.approval_above
    then Decision.require_approval
    else if is_above amount p.notify_above
    then Decision.allow_notify
    else Decision.allow_auto

append_nil : {A : Type 0} (xs ys : List A) → ((xs ++ ys) ≡ []) ↔ ((xs ≡ []) × (ys ≡ []))
append_nil [] ys = (λ h. (refl, h), λ h. h.1)
append_nil (x ∷ xs) ys = (λ h. cc, λ h. cc)

Permitted-iff :
    (denied : List Text) (allowed : Option (List Text)) (t : Option Text)
    → ((is_denied t denied ≡ false) × (is_outside t allowed ≡ false)) ↔ Permitted denied allowed t
Permitted-iff denied none none =
    (λ h. record { not_denied = λ x e. cc; listed = λ l e. cc }, λ h. (refl, refl))
Permitted-iff denied (some l) none = (λ h. cc, λ h. let r = h.listed l refl in ground arith)
Permitted-iff denied none (some x) = (
  λ h. record { not_denied = λ y e. ground arith; listed = λ l e. cc },
  λ h. (h.not_denied x refl, refl),
)
Permitted-iff denied (some l) (some x) = (
  λ h. record { not_denied = λ y e. ground arith; listed = λ k e. (x, refl, ground arith) },
  λ h. (h.not_denied x refl, let r = h.listed l refl in ground arith),
)

screened_iff :
    (t : Option Text) (denied : List Text) (allowed : Option (List Text)) (r q : Reason)
    → (screened t denied allowed r q ≡ []) ↔ Permitted denied allowed t
screened_iff t denied allowed r q = (
  λ h. (Permitted-iff denied allowed t).0 (ground arith),
  λ h. let k = (Permitted-iff denied allowed t).1 h in rw (k.0, k.1),
)

weekday_iff :
    (days : Option (List ℕ)) (at : Option Timestamp)
    → (weekday_reasons days at ≡ []) ↔ OnWeekday days at
weekday_iff none at = (λ h. tt, λ h. refl)
weekday_iff (some days) none = (λ h. cc, λ h. absurd h)
weekday_iff (some days) (some at) = ground arith

window_iff :
    (start end : Option ℕ) (at : Option Timestamp)
    → (window_reasons start end at ≡ []) ↔ InWindow start end at
unfolding time_in_window
window_iff none none at = (λ h. tt, λ h. refl)
window_iff (some start) end none = (λ h. cc, λ h. absurd h)
window_iff none (some end) none = (λ h. cc, λ h. absurd h)
window_iff (some start) none (some at) = ground arith
window_iff none (some end) (some at) = ground arith
window_iff (some start) (some end) (some at) = ground arith

decision-if :
    (b : Bool) (d e : PolicyDecision)
    → (if b then d else e).decision ≡ (if b then d.decision else e.decision)
decision-if true d e = refl
decision-if false d e = refl

nil_or_not : {A : Type 0} (xs : List A) → (xs ≡ []) ⊎ ¬ (xs ≡ [])
nil_or_not [] = inl refl
nil_or_not (x ∷ xs) = inr (λ h. cc)

decide_on-some :
    (p : SpendingPolicy) (rs : List Reason) (amount : ℤ) (version : Option Text)
    → ¬ (rs ≡ [])
    → (decide_on p rs amount version).decision ≡ Decision.deny
decide_on-some p [] amount version h = absurd (h refl)
decide_on-some p (r ∷ rs) amount version h = refl

module _ (p : SpendingPolicy) (intent : PaymentIntent) (stated : Option Text) where
  denials-Permits :
      pos 0 <ℤ p.per_transaction_limit → denials p intent stated ≡ [] → Permits p intent stated
  denials-Permits configured none_found =
      let p7 = (append_nil _ _).0 none_found in
      let p6 = (append_nil _ _).0 p7.0 in
      let p5 = (append_nil _ _).0 p6.0 in
      let p4 = (append_nil _ _).0 p5.0 in
      let p3 = (append_nil _ _).0 p4.0 in
      let p2 = (append_nil _ _).0 p3.0 in
      let p1 = (append_nil _ _).0 p2.0 in
      let amount : reason_if (ltb_ℤ p.per_transaction_limit intent.amount.value)
            amount_exceeds_transaction_limit
          ≡ [] =
        p1.0 in
      record {
        configured = configured;
        within = ground arith;
        currency = (screened_iff _ _ _ _ _).0 p1.1;
        category = (screened_iff _ _ _ _ _).0 p2.1;
        domain = (screened_iff _ _ _ _ _).0 p3.1;
        region = (screened_iff _ _ _ _ _).0 p4.1;
        instrument = (screened_iff _ _ _ _ _).0 p5.1;
        weekday = (weekday_iff _ _).0 p6.1;
        window = (window_iff _ _ _).0 p7.1;
      }

  Permits-denials : Permits p intent stated → denials p intent stated ≡ []
  Permits-denials h = rw (
    amount,
    (screened_iff _ p.denied_currencies p.allowed_currencies _ _).1 h.currency,
    (screened_iff _ p.denied_categories p.allowed_categories _ _).1 h.category,
    (screened_iff _ p.denied_domains p.allowed_domains _ _).1 h.domain,
    (screened_iff _ p.denied_regions p.allowed_regions _ _).1 h.region,
    (screened_iff _ p.denied_instrument_classes p.allowed_instrument_classes _ _).1 h.instrument,
    (weekday_iff p.allowed_weekdays intent.requested_at).1 h.weekday,
    (window_iff p.start_time p.end_time intent.requested_at).1 h.window,
  )
    where
      amount : ltb_ℤ p.per_transaction_limit intent.amount.value ≡ false
      amount = ground arith

  graded_lem : (decide_on p [] intent.amount.value none).decision ≡ graded p intent.amount.value
  graded_lem =
      decision-if (is_above intent.amount.value p.approval_above) _ _
      ∙ ap
          (λ d.
            if is_above intent.amount.value p.approval_above then Decision.require_approval else d)
          (decision-if (is_above intent.amount.value p.notify_above) _ _)

  trace-limited :
      leb_ℤ p.per_transaction_limit (pos 0) ≡ false
      → evaluate_with_trace p intent stated none
        ≡ decide_on p (denials p intent stated) intent.amount.value none
  unfolding evaluate_with_trace
  trace-limited limited = rw limited

  trace-unlimited :
      leb_ℤ p.per_transaction_limit (pos 0) ≡ true
      → (evaluate_with_trace p intent stated none).decision ≡ Decision.deny
  unfolding evaluate_with_trace
  trace-unlimited unset =
      ap (λ (d : PolicyDecision). d.decision) {x = evaluate_with_trace p intent stated none}
        {y = unconfigured none} (rw unset)

  evaluate-permitted :
      Permits p intent stated → evaluate p intent stated ≡ graded p intent.amount.value
  unfolding evaluate
  evaluate-permitted h =
      let limited : leb_ℤ p.per_transaction_limit (pos 0) ≡ false = ground (arith, h.configured) in
      ap (λ (d : PolicyDecision). d.decision) (trace-limited limited)
      ∙ ap (λ rs. (decide_on p rs intent.amount.value none).decision) (Permits-denials h)
      ∙ graded_lem

  permitted_or_denied : Permits p intent stated ⊎ (evaluate p intent stated ≡ Decision.deny)
  unfolding evaluate
  permitted_or_denied = elim (Bool-cases (leb_ℤ p.per_transaction_limit (pos 0))) [
    | inl unset ↦ inr (trace-unlimited unset)
    | inr limited ↦ elim (nil_or_not (denials p intent stated)) [
      | inl e ↦ inl (denials-Permits (ground arith) e)
      | inr some_found ↦ inr (
          ap (λ (d : PolicyDecision). d.decision) (trace-limited limited)
          ∙ decide_on-some p (denials p intent stated) intent.amount.value none some_found)
    ]
  ]

  -- A payment is not denied exactly when the policy permits it: the policy's limit is positive and
  -- not exceeded, the currency, category, domain, region and instrument class pass the deny and
  -- allow lists, and the request's time is on an allowed weekday and in the time window.
  pub evaluate_iff : (evaluate p intent stated ≢ Decision.deny) ↔ Permits p intent stated
  evaluate_iff = (
    λ n. elim (permitted_or_denied) [ inl h ↦ h | inr e ↦ absurd (n e) ],
    λ h e.
        graded_allows (p.approval_above) (p.notify_above) intent.amount.value
          (sym (evaluate-permitted h) ∙ e),
  )

-- There is a bound, and the amount is greater.
abbrev pub IsAbove : ℤ → Option ℤ → Type 0
IsAbove amount o = (bound : ℤ) × (o ≡ some bound) × (bound <ℤ amount)

is_above_iff : (amount : ℤ) (o : Option ℤ) → (is_above amount o ≡ true) ↔ IsAbove amount o
is_above_iff amount none = (λ h. cc, λ (b, e, h). cc)
is_above_iff amount (some bound) = (λ h. (bound, refl, ground arith), λ (b, e, h). ground arith)

not-IsAbove_iff : (amount : ℤ) (o : Option ℤ) → (is_above amount o ≡ false) ↔ ¬ IsAbove amount o
not-IsAbove_iff amount o = (
  λ h k. let t = (is_above_iff amount o).1 k in cc,
  λ n. elim (Bool-cases (is_above amount o)) [
    | inl over ↦ absurd (n ((is_above_iff amount o).0 over))
    | inr under ↦ under
  ],
)

abbrev chosen : Bool → Bool → Decision
chosen b c =
    if b
    then Decision.require_approval
    else if c
    then Decision.allow_notify
    else Decision.allow_auto

chosen_iff :
    (b c : Bool)
    → ((chosen b c ≡ Decision.require_approval) ↔ (b ≡ true))
      × ((chosen b c ≡ Decision.allow_notify) ↔ ((b ≡ false) × (c ≡ true)))
      × ((chosen b c ≡ Decision.allow_auto) ↔ ((b ≡ false) × (c ≡ false)))
chosen_iff true c = ((λ h. refl, λ h. refl), (λ h. cc, λ h. cc), (λ h. cc, λ h. cc))
chosen_iff false true = ((λ h. cc, λ h. cc), (λ h. (refl, refl), λ h. refl), (λ h. cc, λ h. cc))
chosen_iff false false = ((λ h. cc, λ h. cc), (λ h. cc, λ h. cc), (λ h. (refl, refl), λ h. refl))

module _ (p : SpendingPolicy) (intent : PaymentIntent) (stated : Option Text) where
  permits :
      (d : Decision) → d ≢ Decision.deny → evaluate p intent stated ≡ d → Permits p intent stated
  permits d other e = (evaluate_iff p intent stated).0 (λ k. other (sym e ∙ k))

  pub denied-unpermitted : ¬ Permits p intent stated → evaluate p intent stated ≡ Decision.deny
  denied-unpermitted n = elim (permitted_or_denied p intent stated) [
    | inl h ↦ absurd (n h)
    | inr e ↦ e
  ]

  -- A payment is to be approved exactly when the policy permits it and its amount is above the bound
  -- for approvals; it is allowed with a notification exactly when it is permitted, not above that
  -- bound and above the bound for notifications; and it is allowed without one exactly when it is
  -- permitted and above neither. A bound that is missing is never exceeded.
  pub evaluate-grades :
      ((evaluate p intent stated ≡ Decision.require_approval)
        ↔ (Permits p intent stated × IsAbove intent.amount.value p.approval_above))
      × ((evaluate p intent stated ≡ Decision.allow_notify) ↔ (
          Permits p intent stated
          × ¬ IsAbove intent.amount.value p.approval_above
          × IsAbove intent.amount.value p.notify_above))
      × ((evaluate p intent stated ≡ Decision.allow_auto) ↔ (
          Permits p intent stated
          × ¬ IsAbove intent.amount.value p.approval_above
          × ¬ IsAbove intent.amount.value p.notify_above))
  evaluate-grades =
      let a = intent.amount.value in
      let grades = chosen_iff (is_above a p.approval_above) (is_above a p.notify_above) in
      let same = evaluate-permitted p intent stated in
      (
        (
          λ e.
              let h = permits Decision.require_approval (λ k. cc) e in
              (h, (is_above_iff a p.approval_above).0 (grades.0.0 (sym (same h) ∙ e))),
          λ (h, k). same h ∙ grades.0.1 ((is_above_iff a p.approval_above).1 k),
        ),
        (
          λ e.
              let h = permits Decision.allow_notify (λ k. cc) e in
              let t = grades.1.0 (sym (same h) ∙ e) in
              (
                h,
                (not-IsAbove_iff a p.approval_above).0 t.0,
                (is_above_iff a p.notify_above).0 t.1,
              ),
          λ (h, k, l).
              same h
              ∙ grades.1.1
                  ((not-IsAbove_iff a p.approval_above).1 k, (is_above_iff a p.notify_above).1 l),
        ),
        (
          λ e.
              let h = permits Decision.allow_auto (λ k. cc) e in
              let t = grades.2.0 (sym (same h) ∙ e) in
              (
                h,
                (not-IsAbove_iff a p.approval_above).0 t.0,
                (not-IsAbove_iff a p.notify_above).0 t.1,
              ),
          λ (h, k, l).
              same h
              ∙ grades.2.1 (
                (not-IsAbove_iff a p.approval_above).1 k,
                (not-IsAbove_iff a p.notify_above).1 l,
              ),
        ),
      )

-- The window from `start` to `end` of a day of `day` units: where it ends before it starts, it goes
-- over midnight into the next day.
pub time_in_window_iff :
    (day value start end : ℕ)
    → value < day
    → start < day
    → end < day
    → (time_in_window value (some start) (some end) ≡ true) ↔ (
        (start ≤ value) × (value ≤ (if leb start end then end else end + day))
        ⊎ (start ≤ value + day) × (value + day ≤ (if leb start end then end else end + day)))
unfolding time_in_window
time_in_window_iff day value start end v s e = ground arith
