-- ===== src/System/Tests.antt =====
-- Instances for the calls together.
use agent_pay.Prelude.{none, some, codes, List, [], ◌∷◌}
use agent_pay.Auth.{Verifier}
use agent_pay.Intact.{Intact}
use agent_pay.Samples.{runtime, delivery, usd, ten, to, provider, session, with_payment-Intact}
use agent_pay.Store.{Status}
use agent_pay.System.{Call, after_all}
use agent_pay.System.Sound.{after_all-Intact}

abbrev verifier : Verifier
verifier = record {
  getenv = λ key. some (codes "development");
  decode = λ url token audience issuer. none;
}

abbrev calls : List Call
calls =
    Call.preparing 1 2 3 ten usd none
    ∷ Call.processing 1 to
    ∷ Call.waiting 60
    ∷ Call.refunding 1 (record { value = ten; places = 2 }) usd to
    ∷ Call.resolving 5 6 (codes "FAILED") none to
    ∷ Call.delivering (delivery (codes "evt_1"))
    ∷ Call.approving 9 none (some (codes "Bearer development")) none
    ∷ []

after_all-Intact_example :
    Intact
      (after_all runtime verifier
        (λ b. codes "digest")
        provider
        none
        (session Status.requested)
        calls).durable
after_all-Intact_example =
    after_all-Intact runtime verifier (λ b. codes "digest") provider none (session Status.requested)
      calls (with_payment-Intact Status.requested) (with_payment-Intact Status.requested)
