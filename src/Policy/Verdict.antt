-- ===== src/Policy/Verdict.antt =====
-- The decision of `evaluate`, against a description that asks each rule on its own.
use agent_authorization_gate.Base.{
  ℕ, ◌≡◌, refl, List, [], ◌∷◌, ◌++◌, Str, All, arith, if◌then◌else◌, ◌≢◌, Bool, str_eq, codes, ltb,
  length, true, ap, ap₂, ◌∙◌, sym,
}
use agent_authorization_gate.Policy.{
  PolicyRule, counter_key, check_rule, check_rules, check_rate_limit, Counters, allowlist,
  check_allowlist, resource_scope, check_resource_scope, rate_limit, stamps, max_of, evaluate,
  Policy, decide_by,
}
use agent_authorization_gate.Policy.Outcome.{cleaned, other_rule}
use agent_authorization_gate.Policy.Keys.{counter_key-cancel}

-- No two rules have one id.
abbrev pub Distinct : List PolicyRule → Type 0
Distinct [] = Unit
Distinct (r ∷ rules) = All (λ s. s.id ≢ r.id) rules × Distinct rules

abbrev pub code_of : PolicyRule → Str
code_of r =
    if str_eq r.type allowlist
    then codes "ACTION_NOT_ALLOWED:" ++ r.id
    else if str_eq r.type resource_scope
    then codes "RESOURCE_OUT_OF_SCOPE:" ++ r.id
    else codes "RATE_LIMIT_EXCEEDED:" ++ r.id

module _ (lower : Str → Str) (agent_id action resource : Str) (now : ℕ) where
  -- Whether a rule alone lets the action pass, from the counters before the call.
  abbrev pub passes : Counters → PolicyRule → Bool
  passes cs r =
      if str_eq r.type allowlist
      then check_allowlist lower r action
      else if str_eq r.type resource_scope
      then check_resource_scope lower r resource
      else if str_eq r.type rate_limit
      then ltb (length (cleaned r now (stamps (counter_key agent_id r) cs))) (max_of r)
      else true

  -- The codes of the rules that fail, in the order of the policy.
  abbrev pub failures : Counters → List PolicyRule → List Str
  failures cs [] = []
  failures cs (r ∷ rules) = (if passes cs r then [] else code_of r ∷ []) ++ failures cs rules

  rule_verdict :
      (dry_run : Bool) (cs : Counters) (r : PolicyRule)
      → (check_rule lower r agent_id action resource dry_run now cs).0
        ≡ (if passes cs r then [] else code_of r ∷ [])
  unfolding check_rule check_rate_limit
  rule_verdict dry_run cs r = ground arith

  pub failures-same :
      (cs cs' : Counters) (rules : List PolicyRule)
      → All
          (λ s.
            length (cleaned s now (stamps (counter_key agent_id s) cs))
            ≡ length (cleaned s now (stamps (counter_key agent_id s) cs')))
          rules
      → failures cs rules ≡ failures cs' rules
  failures-same cs cs' [] h = refl
  failures-same cs cs' (r ∷ rules) (e, h) =
      ap₂
        (λ (n : ℕ) (rest : List Str).
          (if (if str_eq r.type allowlist
              then check_allowlist lower r action
              else if str_eq r.type resource_scope
              then check_resource_scope lower r resource
              else if str_eq r.type rate_limit
              then ltb n (max_of r)
              else true)
            then []
            else code_of r ∷ [])
          ++ rest)
        e (failures-same cs cs' rules h)

  unchanged :
      (dry_run : Bool) (cs : Counters) (r : PolicyRule) (rules : List PolicyRule)
      → All (λ s. s.id ≢ r.id) rules
      → All
          (λ s.
            length (
              cleaned s now (
                stamps
                  (counter_key agent_id s)
                  (check_rule lower r agent_id action resource dry_run now cs).1))
            ≡ length (cleaned s now (stamps (counter_key agent_id s) cs)))
          rules
  unchanged dry_run cs r [] h = tt
  unchanged dry_run cs r (s ∷ rules) (d, h) = (
    ap (λ (kept : List ℕ). length (cleaned s now kept))
        (other_rule lower (counter_key agent_id s) r agent_id action resource dry_run now cs
          (λ e. d (sym (counter_key-cancel agent_id r s e)))),
    unchanged dry_run cs r rules h,
  )

  pub rules_verdict :
      (dry_run : Bool) (rules : List PolicyRule) (cs : Counters)
      → Distinct rules
      → (check_rules lower rules agent_id action resource dry_run now cs).0 ≡ failures cs rules
  unfolding check_rules
  rules_verdict dry_run [] cs d = refl
  rules_verdict dry_run (r ∷ rules) cs (n, d) =
      let step = check_rule lower r agent_id action resource dry_run now cs in
      ap₂ (λ (xs ys : List Str). xs ++ ys) (rule_verdict dry_run cs r)
        (rules_verdict dry_run rules step.1 d
          ∙ failures-same step.1 cs rules (unchanged dry_run cs r rules n))

  -- If no two rules of the policy have one id, `evaluate` approves exactly when each rule on its own
  -- lets the action pass from the counters before the call, and otherwise denies with the codes of
  -- the rules that fail, in the order of the policy: no rule's outcome depends on an earlier rule.
  pub evaluate_verdict :
      (policy : Policy) (dry_run : Bool) (cs : Counters)
      → Distinct policy.rules
      → (evaluate lower policy agent_id action resource dry_run now cs).0
        ≡ decide_by (failures cs policy.rules)
  unfolding evaluate
  evaluate_verdict policy dry_run cs d = ap decide_by (rules_verdict dry_run policy.rules cs d)
