-- ===== src/Policy/Tests.antt =====
-- Tests of gateway/policy.py on its demo policy, and instances of its theorems.
use agent_authorization_gate.Base.{
  ℕ, ◌≡◌, refl, List, [], ◌∷◌, Str, All, arith, codes, false, ◌≤◌, true, some, str_eq,
  contains_text, str_ne, ◌≢◌,
}
use agent_authorization_gate.Policy.{
  PolicyRule, create_demo_policy, evaluate, Policy, rate_limit, resource_scope, check_rules,
  check_rule, no_config, decide_by, check_resource_scope, check_allowlist, check_rate_limit, lookup,
  insert, counter_key, approve, deny,
}
use agent_authorization_gate.Base.Dict.{lookup, insert}
use agent_authorization_gate.Policy.Verdict.{Distinct}
use agent_authorization_gate.Fixtures.{ascii_lower}
use agent_authorization_gate.Policy.Window.{count_in}
use agent_authorization_gate.Policy.RateLimit.{Call, approvals, rate_limit_holds}
use agent_authorization_gate.Policy.DryRun.{dry_run_unseen, results}
use agent_authorization_gate.Policy.Verdict.{failures, evaluate_verdict}

abbrev agent : Str
agent = codes "worker-01"

demo_approves :
    (evaluate ascii_lower create_demo_policy agent (codes "READ") (codes "Staging/db") false 5 []).0
    ≡ record { decision = approve; reason_codes = [] }
unfolding evaluate check_rules check_rule check_allowlist check_resource_scope check_rate_limit
    str_eq contains_text lookup insert counter_key
demo_approves = refl

demo_denies :
    (evaluate ascii_lower create_demo_policy agent (codes "delete") (codes "prod/db") false 5 []).0
    ≡ record {
      decision = deny;
      reason_codes =
          codes "ACTION_NOT_ALLOWED:allowed_actions"
          ∷ codes "RESOURCE_OUT_OF_SCOPE:resource_scope"
          ∷ [];
    }
unfolding evaluate check_rules check_rule check_allowlist check_resource_scope check_rate_limit
    str_eq contains_text lookup insert counter_key
demo_denies = refl

-- A policy of one rule: two actions in sixty seconds.
abbrev two_a_minute : PolicyRule
two_a_minute = record {
  id = codes "r";
  type = rate_limit;
  config = record no_config { max_actions = some 2; window_seconds = some 60 };
}

abbrev scope : PolicyRule
scope = record {
  id = codes "s";
  type = resource_scope;
  config = record no_config { denied_resources = some (codes "prod" ∷ []) };
}

abbrev small_policy : Policy
small_policy = record {
  rules = scope ∷ two_a_minute ∷ [];
  version = codes "1";
  require_resource_registration = false;
}

abbrev call_at : ℕ → Call
call_at t = record {
  agent_id = codes "w";
  action = codes "read";
  resource = codes "dev";
  dry_run = false;
  now = t;
}

abbrev calls : List Call
calls = call_at 10 ∷ call_at 20 ∷ call_at 30 ∷ call_at 71 ∷ []

three_approved : approvals ascii_lower small_policy (codes "w") calls [] ≡ 10 ∷ 20 ∷ 71 ∷ []
unfolding approvals evaluate check_rules check_rule check_resource_scope check_rate_limit str_eq
    contains_text lookup insert counter_key
three_approved = refl

small-Distinct : Distinct small_policy.rules
unfolding str_eq
small-Distinct = ((str_ne (codes "r") (codes "s") refl, tt), (tt, tt))

scope_apart :
    All {A = PolicyRule} (λ s. s.id ≢ two_a_minute.id) (scope ∷ [])
    × All {A = PolicyRule} (λ s. s.id ≢ two_a_minute.id) []
unfolding str_eq
scope_apart = ((str_ne (codes "s") (codes "r") refl, tt), tt)

rate_limit_holds_example :
    count_in 60 65 (approvals ascii_lower small_policy (codes "w") calls []) ≤ 2
rate_limit_holds_example =
    rate_limit_holds ascii_lower small_policy (codes "w") (scope ∷ []) [] two_a_minute refl refl
      scope_apart (omega arith) 0 calls (omega arith) 65

evaluate_verdict_example :
    (evaluate ascii_lower small_policy (codes "w") (codes "read") (codes "dev") false 10 []).0
    ≡ decide_by
        (failures ascii_lower (codes "w") (codes "read") (codes "dev") 10 [] small_policy.rules)
evaluate_verdict_example =
    evaluate_verdict ascii_lower (codes "w") (codes "read") (codes "dev") 10 small_policy false []
      small-Distinct

dry_run_unseen_example :
    results ascii_lower small_policy calls
      (evaluate ascii_lower small_policy (codes "w") (codes "read") (codes "dev") true 10 []).1
    ≡ results ascii_lower small_policy calls []
dry_run_unseen_example =
    dry_run_unseen ascii_lower small_policy small-Distinct (codes "w") (codes "read") (codes "dev")
      10 calls [] (omega arith) (omega arith)
