-- ===== src/Provider/Tests.antt =====
-- Instances for the mock and the sandbox provider.
use agent_pay.Prelude.{ℕ, ◌≡◌, [], ◌∷◌, ℕ_eq}
use agent_pay.Provider.{ProviderOutcome, MockProvider, SandboxProvider, run_mock, run_sandbox}
use agent_pay.Provider.Replay.{
  SandboxCall.run, SandboxCall.planning, run_all, run_mock-replays, sandbox_after,
  run_sandbox-replays,
}

abbrev same : ℕ → ℕ
same k = k

abbrev new_mock : MockProvider ℕ ℕ
new_mock = record { outcome = ProviderOutcome.unknown; calls = 0; results = []; references = [] }

abbrev new_sandbox : SandboxProvider ℕ ℕ
new_sandbox = record {
  default_outcome = ProviderOutcome.failed;
  calls = 0;
  results = [];
  references = [];
  planned = [];
}

run_mock-replays_example :
    let (outcome, t) = run_mock same 1 new_mock in
    run_mock same 1 (run_all same (2 ∷ 1 ∷ 3 ∷ []) t) ≡ (outcome, run_all same (2 ∷ 1 ∷ 3 ∷ []) t)
run_mock-replays_example = run_mock-replays same 1 (2 ∷ 1 ∷ 3 ∷ []) new_mock

run_sandbox-replays_example :
    let (outcome, t) = run_sandbox same 1 new_sandbox in
    run_sandbox same 1 (sandbox_after same (planning 1 ProviderOutcome.succeeded ∷ run 2 ∷ []) t)
    ≡ (outcome, sandbox_after same (planning 1 ProviderOutcome.succeeded ∷ run 2 ∷ []) t)
run_sandbox-replays_example =
    run_sandbox-replays same 1 (planning 1 ProviderOutcome.succeeded ∷ run 2 ∷ []) new_sandbox
