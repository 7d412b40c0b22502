-- ===== src/Policy/DryRun.antt =====
-- `dry_run` of gateway/policy.py: a simulated call is not seen by any later call.
use agent_authorization_gate.Base.{
  ℕ, ◌≡◌, refl, List, [], ◌∷◌, Str, All, arith, ◌≢◌, length, inr, inl, true, sym, ap, ap₂, ◌∙◌,
  Bool-cases, str_eq, str_eq_iff, subst, ◌⊎◌,
}
use agent_authorization_gate.Policy.{
  PolicyRule, counter_key, check_rule, check_rules, check_rate_limit, Counters, evaluate, Policy,
  stamps, decide_by, window_of, EvaluationResult,
}
use agent_authorization_gate.Policy.Alike.{SameCounts, Indistinct, ApartFrom, apart, rules_alike}
use agent_authorization_gate.Policy.Verdict.{Distinct, rules_verdict, failures-same}
use agent_authorization_gate.Policy.Outcome.{cleaned, other_rule, stamps-insert_self}
use agent_authorization_gate.Policy.Keys.{NoColon, counter_key-injective}
use agent_authorization_gate.Policy.RateLimit.{Call, IsOrdered}
use agent_authorization_gate.Policy.Window.{filter_twice}

module _ (lower : Str → Str) (policy : Policy) where
  -- The results of a sequence of calls.
  unfoldable pub results : List Call → Counters → List EvaluationResult
  results [] cs = []
  results (c ∷ calls) cs =
      let (result, cs') = evaluate lower policy c.agent_id c.action c.resource c.dry_run c.now cs in
      result ∷ results calls cs'

module _ (lower : Str → Str) (agent_id action resource : Str) (now : ℕ)
    (named : NoColon agent_id) where
  dry_check :
      (s : PolicyRule) (cs : Counters)
      → SameCounts now agent_id (check_rate_limit s agent_id true now cs).1 cs s
  unfolding check_rate_limit
  dry_check s cs at le =
      let k = counter_key agent_id s in
      let fresh = cleaned s now (stamps k cs) in
      ground
        (arith, stamps-insert_self k fresh cs, filter_twice (window_of s) now at (stamps k cs) le)

  dry_rule :
      (s : PolicyRule) (cs : Counters)
      → SameCounts now agent_id (check_rule lower s agent_id action resource true now cs).1 cs s
  unfolding check_rule
  dry_rule s cs at le = ground (arith, dry_check s cs at le)

  dry_other :
      (b : Str) (s r : PolicyRule) (cs : Counters)
      → counter_key agent_id r ≢ counter_key b s
      → SameCounts now b (check_rule lower r agent_id action resource true now cs).1 cs s
  dry_other b s r cs ne at le =
      ap (λ (kept : List ℕ). length (cleaned s at kept))
        (other_rule lower (counter_key b s) r agent_id action resource true now cs ne)

  dry_step :
      (b : Str) (s r : PolicyRule) (cs : Counters)
      → NoColon b
      → (r ≡ s) ⊎ (r.id ≢ s.id)
      → SameCounts now b (check_rule lower r agent_id action resource true now cs).1 cs s
  dry_step b s r cs n (inr differ) =
      dry_other b s r cs (λ k. differ (counter_key-injective agent_id b r s named n k).1)
  dry_step b s r cs n (inl same) = elim (Bool-cases (str_eq agent_id b)) [
    | inr other ↦ dry_other b s r cs (λ k.
        cc (other, (str_eq_iff agent_id b).1 (counter_key-injective agent_id b r s named n k).0))
    | inl own ↦
        subst
          (λ c. SameCounts now c (check_rule lower r agent_id action resource true now cs).1 cs s)
          ((str_eq_iff agent_id b).0 own)
          (subst
            (λ q.
              SameCounts now agent_id (check_rule lower q agent_id action resource true now cs).1 cs
                s)
            (sym same) (dry_rule s cs))
  ]

  dry_rules :
      (b : Str) (s : PolicyRule) (rules : List PolicyRule) (cs : Counters)
      → NoColon b
      → ApartFrom rules s
      → SameCounts now b (check_rules lower rules agent_id action resource true now cs).1 cs s
  unfolding check_rules
  dry_rules b s [] cs n h at le = refl
  dry_rules b s (r ∷ rules) cs n (d, h) at le =
      dry_rules b s rules (check_rule lower r agent_id action resource true now cs).1 n h at le
      ∙ dry_step b s r cs n d at le

All-map :
    {P Q : PolicyRule → Type 0}
    → ((s : PolicyRule) → P s → Q s)
    → (xs : List PolicyRule) → All P xs
    → All Q xs
All-map f [] h = tt
All-map f (x ∷ xs) (p, h) = (f x p, All-map f xs h)

All-both :
    {P Q R : PolicyRule → Type 0}
    → ((s : PolicyRule) → P s → Q s → R s)
    → (xs : List PolicyRule) → All P xs
    → All Q xs
    → All R xs
All-both f [] h k = tt
All-both f (x ∷ xs) (p, h) (q, k) = (f x p q, All-both f xs h k)

module _ (lower : Str → Str) (policy : Policy) (distinct : Distinct policy.rules) where
  same_result :
      (c : Call) (cs cs' : Counters)
      → NoColon c.agent_id
      → Indistinct c.now policy.rules cs cs'
      → (evaluate lower policy c.agent_id c.action c.resource c.dry_run c.now cs).0
        ≡ (evaluate lower policy c.agent_id c.action c.resource c.dry_run c.now cs').0
  unfolding evaluate
  same_result c cs cs' n h = ap decide_by (
      rules_verdict lower c.agent_id c.action c.resource c.now c.dry_run policy.rules cs distinct
      ∙ failures-same lower c.agent_id c.action c.resource c.now cs cs' policy.rules
          (All-map (λ s k. k c.now (omega arith)) policy.rules (h c.agent_id n))
      ∙ sym (
          rules_verdict lower c.agent_id c.action c.resource c.now c.dry_run policy.rules cs'
            distinct))

  still_alike :
      (c : Call) (cs cs' : Counters)
      → NoColon c.agent_id
      → Indistinct c.now policy.rules cs cs'
      → Indistinct c.now policy.rules
          (evaluate lower policy c.agent_id c.action c.resource c.dry_run c.now cs).1
          (evaluate lower policy c.agent_id c.action c.resource c.dry_run c.now cs').1
  unfolding evaluate
  still_alike c cs cs' n h b nb =
      All-both
        (λ s a k.
          rules_alike lower c.agent_id c.action c.resource c.dry_run c.now n b s policy.rules cs cs'
            nb a k)
        policy.rules (apart policy.rules distinct) (h b nb)

  same_results :
      (start : ℕ) (calls : List Call) (cs cs' : Counters)
      → IsOrdered start calls
      → Indistinct start policy.rules cs cs'
      → results lower policy calls cs ≡ results lower policy calls cs'
  unfolding results
  same_results start [] cs cs' o h = refl
  same_results start (c ∷ calls) cs cs' (le, n, o) h =
      let h' : Indistinct c.now policy.rules cs cs' =
        λ b nb. All-map (λ s k at later. k at (omega arith)) policy.rules (h b nb) in
      ap₂ (λ (r : EvaluationResult) (rs : List EvaluationResult). r ∷ rs)
        (same_result c cs cs' n h') (same_results c.now calls _ _ o (still_alike c cs cs' n h'))

  -- If no two rules of the policy have one id, and no agent id has a colon, a dry run changes the
  -- result of no later call: any sequence of calls of `evaluate` in the order of the clock, by any
  -- agents, dry runs among them, has the same decisions and reasons after the dry run as without it.
  pub dry_run_unseen :
      (agent_id action resource : Str) (now : ℕ) (calls : List Call) (cs : Counters)
      → NoColon agent_id
      → IsOrdered now calls
      → results lower policy calls (evaluate lower policy agent_id action resource true now cs).1
        ≡ results lower policy calls cs
  unfolding evaluate
  dry_run_unseen agent_id action resource now calls cs n o = same_results now calls _ cs o (λ b nb.
      All-map (λ s a. dry_rules lower agent_id action resource now n b s policy.rules cs nb a)
        policy.rules (apart policy.rules distinct))
