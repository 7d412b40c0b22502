-- ===== src/Liveness/States.antt =====
-- The state machine of gateway/liveness.py: states against the most recent outcomes.
use agent_authorization_gate.Base.{
  ℕ, zero, suc, ◌+◌, ◌≤◌, ◌≡◌, refl, ◌↔◌, true, false, Bool, Option, List, [], ◌∷◌, Str, arith,
  length, filter, not,
}
use agent_authorization_gate.Liveness.{
  LivenessState, live, warning, stale, suspended, unknown, LivenessRecord, ChallengeResult,
  verified, failed, new_record, append_history, record_success, record_failure, record_result,
  degrade, should_deny_authorization,
}

-- The result of a check and its time.
abbrev pub Check : Type 0
Check = ℕ × ChallengeResult

-- The record of a new agent after these checks, the most recent one first.
abbrev pub after : Str → Option Str → List Check → LivenessRecord
after agent_id url [] = new_record agent_id url
after agent_id url ((now, result) ∷ checks) = record_result now result (after agent_id url checks)

-- How many of the most recent checks failed, up to the last one that succeeded.
abbrev pub failing : List Check → ℕ
failing [] = 0
failing ((_, verified) ∷ checks) = 0
failing ((_, failed _) ∷ checks) = suc (failing checks)

abbrev pub succeeded : Check → Bool
succeeded (_, verified) = true
succeeded (_, failed _) = false

-- The state by the number of checks and the number of the last ones that failed.
abbrev pub graduated : ℕ → ℕ → LivenessState
graduated zero _ = unknown
graduated (suc _) zero = live
graduated (suc _) (suc zero) = warning
graduated (suc _) (suc (suc zero)) = stale
graduated (suc _) (suc (suc (suc _))) = suspended

abbrev pub Counted : LivenessRecord → List Check → Type 0
Counted r checks =
    (r.state ≡ graduated (length checks) (failing checks))
    × (r.consecutive_failures ≡ failing checks)
    × (r.total_checks ≡ length checks)
    × (r.total_successes ≡ length (filter succeeded checks))
    × (r.total_failures ≡ length (filter (λ c. not (succeeded c)) checks))

Counted-success :
    (now : ℕ) (r : LivenessRecord) (checks : List Check)
    → Counted r checks
    → Counted (record_success now r) ((now, verified) ∷ checks)
unfolding record_success append_history
Counted-success now r checks (s, c, t, u, f) = (refl, refl, omega arith, omega arith, f)

degrade-graduated : (n m : ℕ) (s : LivenessState) → degrade (n + 1) s ≡ graduated (suc m) (suc n)
unfolding degrade
degrade-graduated zero m s = refl
degrade-graduated (suc zero) m s = refl
degrade-graduated (suc (suc zero)) m s = refl
degrade-graduated (suc (suc (suc n))) m s = ground arith

Counted-failure :
    (now : ℕ) (reason : Str) (r : LivenessRecord) (checks : List Check)
    → Counted r checks
    → Counted (record_failure now reason r) ((now, failed reason) ∷ checks)
unfolding record_failure append_history
Counted-failure now reason r checks (s, c, t, u, f) = (
  rw c (degrade-graduated (failing checks) (length checks) r.state),
  omega arith,
  omega arith,
  u,
  omega arith,
)

-- After any checks of a new agent its state is UNKNOWN without a check, LIVE if the last check
-- succeeded, and WARNING, STALE or SUSPENDED if the last one, two, or three and more checks failed;
-- its counters are the number of those failures, and the numbers of all checks, of those that
-- succeeded and of those that failed.
pub state_follows_checks :
    (agent_id : Str) (url : Option Str) (checks : List Check)
    → Counted (after agent_id url checks) checks
state_follows_checks agent_id url [] = (refl, refl, refl, refl, refl)
state_follows_checks agent_id url ((now, verified) ∷ checks) =
    Counted-success now (after agent_id url checks) checks
      (state_follows_checks agent_id url checks)
state_follows_checks agent_id url ((now, failed reason) ∷ checks) =
    Counted-failure now reason (after agent_id url checks) checks
      (state_follows_checks agent_id url checks)

failing_le : (checks : List Check) → failing checks ≤ length checks
failing_le [] = omega arith
failing_le ((_, verified) ∷ checks) = omega arith
failing_le ((_, failed _) ∷ checks) = omega (arith, failing_le checks)

denied_by :
    (r : LivenessRecord) (total n : ℕ)
    → r.state ≡ graduated total n
    → n ≤ total
    → (should_deny_authorization r ≡ true) ↔ (2 ≤ n)
unfolding should_deny_authorization
denied_by r zero n e le = rw e ((λ h. cc), (λ h. absurd (omega arith)))
denied_by r (suc t) zero e le = rw e ((λ h. cc), (λ h. absurd (omega arith)))
denied_by r (suc t) (suc zero) e le = rw e ((λ h. cc), (λ h. absurd (omega arith)))
denied_by r (suc t) (suc (suc zero)) e le = rw e ((λ h. omega arith), (λ h. refl))
denied_by r (suc t) (suc (suc (suc n))) e le = rw e ((λ h. omega arith), (λ h. refl))

-- An agent is denied for its liveness exactly if its last two checks failed.
pub denied_iff_failing :
    (agent_id : Str) (url : Option Str) (checks : List Check)
    → (should_deny_authorization (after agent_id url checks) ≡ true) ↔ (2 ≤ failing checks)
denied_iff_failing agent_id url checks =
    denied_by (after agent_id url checks) (length checks) (failing checks)
      (state_follows_checks agent_id url checks).0 (failing_le checks)
