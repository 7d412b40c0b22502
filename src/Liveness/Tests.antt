-- ===== src/Liveness/Tests.antt =====
-- Instances of the theorems on gateway/liveness.py.
use agent_authorization_gate.Base.{
  ◌≤◌, ◌≡◌, refl, true, ◌↔◌, none, some, List, [], ◌∷◌, ◌++◌, Str, codes, str_eq, ok, length, ◌≢◌,
  filter, if◌then◌else◌, str_ne, not,
}
use agent_authorization_gate.Liveness.{
  LivenessManager, verified, failed, Counts, sweep, should_deny_authorization, new_record,
  ChallengeResult, LivenessRecord, values,
}
use agent_authorization_gate.Liveness.States.{
  Check, after, failing, Counted, state_follows_checks, denied_iff_failing,
}
use agent_authorization_gate.Liveness.History.{full_log, KeepsLast, history_is_recent}
use agent_authorization_gate.Liveness.Sweep.{due, passes, refreshed, sweep_returns}

abbrev checks : List Check
checks = (30, failed (codes "timeout")) ∷ (20, failed (codes "timeout")) ∷ (10, verified) ∷ []

abbrev agent : Str
agent = codes "agent"

state_follows_checks_example : Counted (after agent none checks) checks
state_follows_checks_example = state_follows_checks agent none checks

denied_iff_failing_example :
    (should_deny_authorization (after agent none checks) ≡ true) ↔ (2 ≤ failing checks)
denied_iff_failing_example = denied_iff_failing agent none checks

-- 24 checks, of which the history keeps 20.
abbrev eight : List Check → List Check
eight later = checks ++ checks ++ (1, verified) ∷ (0, failed (codes "refused")) ∷ later

abbrev many_checks : List Check
many_checks = eight (eight (eight []))

history_is_recent_example :
    KeepsLast (after agent none many_checks).history (full_log agent none many_checks)
history_is_recent_example = history_is_recent agent none many_checks

abbrev other : Str
other = codes "other"

abbrev manager : LivenessManager
manager = record {
  records =
      (agent, new_record agent (some (codes "https://agent")))
      ∷ (other, new_record other (some (codes "https://other")))
      ∷ [];
  attestation_interval = 3600;
}

agents_differ : agent ≢ other
unfolding str_eq
agents_differ = str_ne agent other refl

-- Only one of the two agents answers.
abbrev challenge : Str → ChallengeResult
challenge id = if str_eq id agent then verified else failed (codes "timeout")

abbrev checks_due : List LivenessRecord
checks_due = filter (due (λ _. true) challenge 5 3600) (values manager.records)

sweep_returns_example :
    (n : Counts) × (sweep (λ _. true) challenge 5 manager
      ≡ ok (n, record manager { records = refreshed (λ _. true) challenge 5 3600 manager.records }))
    × (n.checked ≡ length checks_due)
    × (n.passed ≡ length (filter (passes (λ _. true) challenge 5 3600) checks_due))
    × (n.failures ≡ length (filter (λ r. not (passes (λ _. true) challenge 5 3600 r)) checks_due))
sweep_returns_example =
    sweep_returns (λ _. true) challenge 5 manager (refl, (refl, tt)) ((agents_differ, tt), (tt, tt))
