-- ===== src/LifecycleApi/Tests.antt =====
-- Instances for the lifecycle endpoints.
use agent_pay.Prelude.{ℕ, Text, codes, pos, none, some, err, Error, [], ◌∷◌, ◌≡◌, ◌⊎◌, refl, arith}
use agent_pay.Auth.{Verifier}
use agent_pay.LifecycleApi.{refunding, run}
use agent_pay.LifecycleApi.Agents.{IsAgent, run-authorized}
use agent_pay.LifecycleApi.Amounts.{decimal_of, printed, decimal_of-printed}
use agent_pay.Samples.{ten, usd, no_reference, session}
use agent_pay.Store.{Status}

-- 12.34
decimal_of-printed_example :
    decimal_of (printed 123400 2) ≡ some (record { value = pos 123400; places = 2 })
decimal_of-printed_example = decimal_of-printed 123400 2 (omega arith) refl

abbrev verifier : Verifier
verifier = record {
  getenv = λ key. some (codes "development");
  decode = λ url token audience issuer. none;
}

abbrev uuid : ℕ → Text
uuid id = id ∷ []

run-authorized_example :
    IsAgent verifier uuid 1 (some (codes "Bearer stolen")) (session Status.succeeded).db
    ⊎ ((e : Error) × (run verifier uuid no_reference refunding 1
            (record { value = ten; places = 2 })
            usd
            (some (codes "Bearer stolen"))
            none
            (session Status.succeeded)
          ≡ (err e, session Status.succeeded)))
run-authorized_example =
    run-authorized verifier uuid no_reference refunding 1 (record { value = ten; places = 2 }) usd
      (some (codes "Bearer stolen")) none (session Status.succeeded)
