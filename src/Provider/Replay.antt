-- ===== src/Provider/Replay.antt =====
-- A provider answers a repeated key from its record: the first outcome Lasts, whatever happens in
-- between.
use agent_pay.Prelude.{
  Eq, lookup, lookup-insert, none, some, Option-cases, ◌≡◌, List, [], ◌∷◌, beq_refl, arith, inl,
  inr,
}
use agent_pay.Provider.{ProviderOutcome, MockProvider, SandboxProvider, run_mock, run_sandbox, plan}

-- What other clients of a sandbox do in between: run another order, or plan an outcome.
pub data SandboxCall (K : Type 0) : Type 0 where
  run : K → SandboxCall K
  planning : K → ProviderOutcome → SandboxCall K

module _ {K R : Type 0} ⦃e : Eq K⦄ (reference : K → R) where
  pub run_all : List K → MockProvider K R → MockProvider K R
  run_all [] s = s
  run_all (k ∷ ks) s = run_all ks (run_mock reference k s).1

  run_mock-records :
      (k : K) (s : MockProvider K R)
      → lookup k (run_mock reference k s).1.results ≡ some (run_mock reference k s).0
  unfolding run_mock
  run_mock-records k s = ground (arith, lookup-insert k k s.outcome s.results, beq_refl k)

  -- A recorded outcome stays recorded.
  run_mock-keeps :
      (k j : K) {r : ProviderOutcome} (s : MockProvider K R)
      → lookup j s.results ≡ some r
      → lookup j (run_mock reference k s).1.results ≡ some r
  unfolding run_mock
  run_mock-keeps k j s h = ground (arith, lookup-insert k j s.outcome s.results, e.beq_iff k j)

  run_all-keeps :
      (ks : List K) (j : K) {r : ProviderOutcome} (s : MockProvider K R)
      → lookup j s.results ≡ some r
      → lookup j (run_all ks s).results ≡ some r
  unfolding run_all
  run_all-keeps [] j s h = h
  run_all-keeps (k ∷ ks) j s h =
      run_all-keeps ks j (run_mock reference k s).1 (run_mock-keeps k j s h)

  run_mock-recorded :
      (k : K) {r : ProviderOutcome} (s : MockProvider K R)
      → lookup k s.results ≡ some r
      → run_mock reference k s ≡ (r, s)
  unfolding run_mock
  run_mock-recorded k s h = ground arith

  -- After a call with a key and any calls since, the same key gives the first outcome again and
  -- changes nothing: the mock provider has not charged twice.
  pub run_mock-replays :
      (k : K) (ks : List K) (s : MockProvider K R)
      → let (outcome, t) = run_mock reference k s in
        run_mock reference k (run_all ks t) ≡ (outcome, run_all ks t)
  run_mock-replays k ks s =
      let (outcome, t) = run_mock reference k s in
      run_mock-recorded k (run_all ks t) (run_all-keeps ks k t (run_mock-records k s))

  pub sandbox_after : List (SandboxCall K) → SandboxProvider K R → SandboxProvider K R
  sandbox_after [] s = s
  sandbox_after (run k ∷ cs) s = sandbox_after cs (run_sandbox reference k s).1
  sandbox_after (planning k r ∷ cs) s = sandbox_after cs (plan k r s)

  run_sandbox-records :
      (k : K) (s : SandboxProvider K R)
      → lookup k (run_sandbox reference k s).1.results ≡ some (run_sandbox reference k s).0
  unfolding run_sandbox
  run_sandbox-records k s = elim (Option-cases (lookup k s.results)) [
    | inl new ↦ rw (new, run_sandbox) (rw lookup-insert (rw beq_refl))
    | inr (r, old) ↦ rw (old, run_sandbox) old
  ]

  run_sandbox-keeps :
      (k j : K) {r : ProviderOutcome} (s : SandboxProvider K R)
      → lookup j s.results ≡ some r
      → lookup j (run_sandbox reference k s).1.results ≡ some r
  unfolding run_sandbox
  run_sandbox-keeps k j s h = grind (arith, lookup-insert, e.beq_iff k j)

  sandbox_after-keeps :
      (cs : List (SandboxCall K)) (j : K) {r : ProviderOutcome} (s : SandboxProvider K R)
      → lookup j s.results ≡ some r
      → lookup j (sandbox_after cs s).results ≡ some r
  unfolding sandbox_after plan
  sandbox_after-keeps [] j s h = h
  sandbox_after-keeps (run k ∷ cs) j s h =
      sandbox_after-keeps cs j (run_sandbox reference k s).1 (run_sandbox-keeps k j s h)
  sandbox_after-keeps (planning k r ∷ cs) j s h = sandbox_after-keeps cs j (plan k r s) h

  run_sandbox-recorded :
      (k : K) {r : ProviderOutcome} (s : SandboxProvider K R)
      → lookup k s.results ≡ some r
      → run_sandbox reference k s ≡ (r, s)
  unfolding run_sandbox
  run_sandbox-recorded k s h = ground arith

  -- The sandbox repeats the first outcome of a key, also after other calls and after the outcome of
  -- the key has been planned anew.
  pub run_sandbox-replays :
      (k : K) (cs : List (SandboxCall K)) (s : SandboxProvider K R)
      → let (outcome, t) = run_sandbox reference k s in
        run_sandbox reference k (sandbox_after cs t) ≡ (outcome, sandbox_after cs t)
  run_sandbox-replays k cs s =
      let (outcome, t) = run_sandbox reference k s in
      run_sandbox-recorded k (sandbox_after cs t)
        (sandbox_after-keeps cs k t (run_sandbox-records k s))

  -- The first call with a planned key gives the planned outcome.
  pub run_sandbox-planned :
      (k : K) (outcome : ProviderOutcome) (s : SandboxProvider K R)
      → lookup k s.results ≡ none
      → (run_sandbox reference k (plan k outcome s)).0 ≡ outcome
  unfolding run_sandbox plan
  run_sandbox-planned k outcome s h = rw (h, run_sandbox) (rw lookup-insert (rw beq_refl))
