-- ===== src/Approvals/Once.antt =====
-- The endpoints that decide on an approval.
use agent_pay.Prelude.{ℕ, Text, Option, some, true, Result, ok, err, Error, lookup, ◌≡◌, refl, ℕ_eq}
use agent_pay.Prelude.Errors.{Error.http_error}
use agent_pay.Prelude.Exec.{Exec, continue, raise_if, ◌>>=◌, update}
use agent_pay.Prelude.Exec.Raises.{Raises, raise-Raises, choose-Raises, first-Raises, rest-Raises}
use agent_pay.Approvals.{
  is_over, expire, approve_request, approve, deny_request, approve_payment, deny_payment,
}
use agent_pay.Auth.{Verifier, resolve_approval_bearer}
use agent_pay.Control.{Binding, set_approval, payment_request}
use agent_pay.LifecycleApi.{bearer, refused}
use agent_pay.Store.Refused.{IsClean, unit_of_work-Raises}
use agent_pay.Store.{
  Db, Approval, ApprovalStatus, ApprovalStatus_eq, Session, on_db, unit_of_work, for_update,
}

pub data Verdict : Type 0 where
  approving denying : Verdict

payment_request-Raises : (request : ℕ) → Raises (payment_request request)
unfolding payment_request for_update
payment_request-Raises request = raise-Raises _

module _ (digest : Binding → Text) (id : ℕ) where
  approve-Raises :
      (actor : Text) (reason correlation : Option Text)
      → Raises (approve digest id actor reason correlation)
  unfolding approve approve_request expire
  approve-Raises actor reason correlation = rest-Raises _ _ (λ found. rest-Raises _ _ (λ row.
      rest-Raises _ _ (λ u. rest-Raises _ _ (λ over.
        choose-Raises _ _ _ (rest-Raises _ _ (λ v. raise-Raises _))
          (first-Raises _ _ (payment_request-Raises row.payment_request_id))))))

  deny_request-Raises :
      (actor : Text) (reason correlation : Option Text)
      → Raises (deny_request id actor reason correlation)
  unfolding deny_request
  deny_request-Raises actor reason correlation = rest-Raises _ _ (λ found. rest-Raises _ _ (λ row.
      rest-Raises _ _ (λ u. first-Raises _ _ (payment_request-Raises row.payment_request_id))))

module _ {P : Type 0} (verifier : Verifier) (digest : Binding → Text) (id : ℕ) where
  -- The endpoint of a verdict.
  unfoldable pub decide : Verdict → Option Text → Option Text → Option Text → Exec (Session P) ℕ
  decide approving reason authorization correlation =
      approve_payment verifier digest id reason authorization correlation
  decide denying reason authorization correlation =
      deny_payment verifier digest id reason authorization correlation

  undecided :
      (m : Text → Exec Db ℕ) (actor : Result Text) (s : Session P)
      → ((a : Text) → Raises (m a))
      → IsClean s
      → (e : Error) × (continue actor (λ a. unit_of_work (on_db (m a))) s ≡ (err e, s))
  undecided m (err x) s h same = (x, refl)
  undecided m (ok a) s h same = unit_of_work-Raises (m a) s (h a) same

  -- On a connection with nothing uncommitted, no verdict on any approval is ever recorded: approving
  -- and denying always raise, for every caller, reason and database, and leave the database and the
  -- provider as they were.
  pub decide-never :
      (v : Verdict) (reason authorization correlation : Option Text) (s : Session P)
      → s.durable ≡ s.db
      → (e : Error) × (decide v reason authorization correlation s ≡ (err e, s))
  unfolding decide approve_payment deny_payment ◌>>=◌
  decide-never approving reason authorization correlation s same =
      undecided (λ actor. approve digest id actor reason correlation)
        (refused 401 (resolve_approval_bearer verifier (bearer authorization))) s
        (λ actor. approve-Raises digest id actor reason correlation) same
  decide-never denying reason authorization correlation s same =
      undecided (λ actor. deny_request id actor reason correlation)
        (refused 401 (resolve_approval_bearer verifier (bearer authorization))) s
        (λ actor. deny_request-Raises digest id actor reason correlation) same

  -- On a connection with nothing uncommitted, approving a pending approval whose time is over, with a
  -- token that is accepted, answers 409 and changes nothing: the row is not marked as expired, since
  -- the raise takes the update back.
  pub approve_payment-expired :
      (reason authorization correlation : Option Text) (actor : Text) (row : Approval)
      (s : Session P)
      → resolve_approval_bearer verifier (bearer authorization) ≡ ok actor
      → lookup id s.db.approvals ≡ some row
      → row.status ≡ ApprovalStatus.pending
      → is_over s.db.now row.expires_at ≡ true
      → s.durable ≡ s.db
      → approve_payment verifier digest id reason authorization correlation s
        ≡ (err (http_error 409 "approval has expired"), s)
  unfolding approve_payment approve expire set_approval unit_of_work on_db ◌>>=◌ update raise_if
  approve_payment-expired reason authorization correlation actor row s known found pending over
        same =
      rw known (
        rw found (
          rw ((ApprovalStatus_eq.beq_iff row.status ApprovalStatus.pending).1 pending) (
            rw over
              (λ j. (err (http_error 409 "approval has expired"), record s { db = same j })))))
