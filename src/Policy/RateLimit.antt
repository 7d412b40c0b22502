-- ===== src/Policy/RateLimit.antt =====
-- Over any sequence of calls of `evaluate`, no window of a rate-limit rule holds more approved actions
-- of one agent than the rule allows.
use agent_authorization_gate.Base.{
  ℕ, ◌≡◌, refl, List, [], ◌∷◌, ◌++◌, Str, All, arith, Bool, ◌≢◌, false, str_eq_iff, true, inl, inr,
  str_eq, ap, ◌≤◌, if◌then◌else◌, ◌&&◌, not, Bool-cases, append-nil, subst, ◌+◌,
}
use agent_authorization_gate.Base.Dict.{lookup}
use agent_authorization_gate.Policy.{
  PolicyRule, counter_key, check_rules, Counters, stamps, window_of, max_of, rate_limit, Policy,
  EvaluationResult, Decision, evaluate, decide_by, approve, deny,
}
use agent_authorization_gate.Policy.Keys.{NoColon, counter_key-injective}
use agent_authorization_gate.Policy.Window.{
  Tracks, count_in, Tracks-clean, Tracks-count, Tracks-later, Tracks-start, count_in-append,
}
use agent_authorization_gate.Policy.Outcome.{other_rules, Outcome, rules_outcome}

-- A call of `evaluate`, at a time.
pub record Call : Type 0 where
  pub agent_id : Str
  pub action : Str
  pub resource : Str
  pub dry_run : Bool
  pub now : ℕ

-- The calls come in the order of the clock, from `start` on, and no agent id has a colon.
abbrev pub IsOrdered : ℕ → List Call → Type 0
IsOrdered start [] = Unit
IsOrdered start (c ∷ calls) = (start ≤ c.now) × NoColon c.agent_id × IsOrdered c.now calls

abbrev pub is_approve : Decision → Bool
is_approve approve = true
is_approve deny = false

-- The time of a call that was approved for the agent and was not a dry run.
abbrev pub approved_at : Str → Call → EvaluationResult → List ℕ
approved_at agent_id c result =
    if str_eq c.agent_id agent_id && is_approve result.decision && not c.dry_run
    then c.now ∷ []
    else []

module _ (lower : Str → Str) (policy : Policy) (agent_id : Str) where
  -- The times of the approved actions of one agent in a sequence of calls.
  unfoldable pub approvals : List Call → Counters → List ℕ
  approvals [] cs = []
  approvals (c ∷ calls) cs =
      let (result, cs') = evaluate lower policy c.agent_id c.action c.resource c.dry_run c.now cs in
      approved_at agent_id c result ++ approvals calls cs'

-- What one call did to the counter, against a history that grows by what it counted.
abbrev Advance : PolicyRule → Str → Call → List ℕ → List ℕ → EvaluationResult → Type 0
Advance r agent_id c history kept' result =
    (more : List ℕ) × Tracks (max_of r) (window_of r) c.now (history ++ more) kept'
    × ((at : ℕ)
        → count_in (window_of r) at (approved_at agent_id c result)
          ≤ count_in (window_of r) at more)

module _ (r : PolicyRule) (agent_id : Str) (c : Call) {past : ℕ} {history kept : List ℕ}
    (le : past ≤ c.now) (t : Tracks (max_of r) (window_of r) past history kept) where
  nothing_counted :
      (kept' : List ℕ) (result : EvaluationResult)
      → Tracks (max_of r) (window_of r) c.now history kept'
      → (is_approve result.decision && not c.dry_run) ≡ false
      → Advance r agent_id c history kept' result
  nothing_counted kept' result t' e = ([], rw append-nil t', λ at. ground arith)

  no_approval :
      (reasons : List Str) → reasons ≢ [] → is_approve (decide_by reasons).decision ≡ false
  no_approval [] n = absurd (n refl)
  no_approval (x ∷ xs) n = refl

  Advance-own :
      (kept' : List ℕ) (reasons : List Str)
      → Outcome r c.dry_run c.now kept kept' reasons
      → Advance r agent_id c history kept' (decide_by reasons)
  Advance-own kept' reasons (inl (e, inl n)) =
      nothing_counted kept' (decide_by reasons) (rw e (Tracks-clean c.now le t))
        (ground (arith, no_approval reasons n))
  Advance-own kept' reasons (inl (e, inr d)) =
      nothing_counted kept' (decide_by reasons) (rw e (Tracks-clean c.now le t)) (ground arith)
  Advance-own kept' reasons (inr (e, room)) =
      (c.now ∷ [], rw e (Tracks-count c.now le t room), λ at. ground arith)

module _ (lower : Str → Str) (policy : Policy) (agent_id : Str) (before after : List PolicyRule)
    (r : PolicyRule) (rules : policy.rules ≡ before ++ r ∷ after) (typed : r.type ≡ rate_limit)
    (alone : All (λ s. s.id ≢ r.id) before × All (λ s. s.id ≢ r.id) after)
    (named : NoColon agent_id) where
  own_differ :
      (own : Str)
      → NoColon own
      → own ≡ agent_id
      → (xs : List PolicyRule) → All (λ s. s.id ≢ r.id) xs
      → All (λ s. counter_key own s ≢ counter_key own r) xs
  own_differ own n e [] h = tt
  own_differ own n e (s ∷ xs) (d, h) =
      (λ p. d (counter_key-injective own own s r n n p).1, own_differ own n e xs h)

  evaluate_at :
      (c : Call) (cs : Counters)
      → evaluate lower policy c.agent_id c.action c.resource c.dry_run c.now cs ≡ (
          let (reasons, cs') =
            check_rules lower
              (before ++ r ∷ after)
              c.agent_id
              c.action
              c.resource
              c.dry_run
              c.now
              cs in
          (decide_by reasons, cs'))
  unfolding evaluate
  evaluate_at c cs =
      ap
        (λ rs.
          let (reasons, cs') =
            check_rules lower rs c.agent_id c.action c.resource c.dry_run c.now cs in
          (decide_by reasons, cs'))
        rules

  none_shared :
      (other : Str)
      → NoColon other
      → other ≢ agent_id
      → (xs : List PolicyRule) → All (λ s. counter_key other s ≢ counter_key agent_id r) xs
  none_shared other n d [] = tt
  none_shared other n d (s ∷ xs) =
      (λ e. d (counter_key-injective other agent_id s r n named e).0, none_shared other n d xs)

  other_calls :
      (c : Call) (cs : Counters)
      → NoColon c.agent_id
      → c.agent_id ≢ agent_id
      → stamps
          (counter_key agent_id r)
          (check_rules lower
            (before ++ r ∷ after)
            c.agent_id
            c.action
            c.resource
            c.dry_run
            c.now
            cs).1
        ≡ stamps (counter_key agent_id r) cs
  other_calls c cs n d =
      other_rules lower (counter_key agent_id r) (before ++ r ∷ after) c.agent_id c.action
        c.resource c.dry_run c.now cs (none_shared c.agent_id n d (before ++ r ∷ after))

  -- One call keeps the counter in step with a history that holds what it approved.
  advance :
      (c : Call) (cs : Counters) (past : ℕ) (history : List ℕ)
      → past ≤ c.now
      → NoColon c.agent_id
      → Tracks (max_of r) (window_of r) past history (stamps (counter_key agent_id r) cs)
      → let (result, cs') =
          evaluate lower policy c.agent_id c.action c.resource c.dry_run c.now cs in
        Advance r agent_id c history (stamps (counter_key agent_id r) cs') result
  advance c cs past history le n t =
      let key = counter_key agent_id r in
      let (reasons, cs') =
        check_rules lower (before ++ r ∷ after) c.agent_id c.action c.resource c.dry_run c.now cs in
      rw (evaluate_at c cs) (elim (Bool-cases (str_eq c.agent_id agent_id)) [
        | inl own ↦
            let e = (str_eq_iff c.agent_id agent_id).0 own in
            Advance-own r agent_id c le t (stamps key cs') reasons (
              subst (λ k. Outcome r c.dry_run c.now (stamps k cs) (stamps k cs') reasons)
                (ap (λ a. counter_key a r) e)
                (rules_outcome lower r typed c.agent_id c.action c.resource c.dry_run c.now before
                  after cs (own_differ c.agent_id n e before alone.0)
                  (own_differ c.agent_id n e after alone.1)))
        | inr other ↦ (
          [],
          rw (append-nil history) (
              Tracks-later c.now le (
                rw (other_calls c cs n (λ e. cc (other, (str_eq_iff c.agent_id agent_id).1 e))) t)),
          λ at. ground arith,
        )
      ])

  loop :
      (calls : List Call) (cs : Counters) (past : ℕ) (history : List ℕ)
      → IsOrdered past calls
      → Tracks (max_of r) (window_of r) past history (stamps (counter_key agent_id r) cs)
      → (at : ℕ)
      → count_in (window_of r) at history
          + count_in (window_of r) at (approvals lower policy agent_id calls cs)
        ≤ max_of r
  unfolding approvals
  loop [] cs past history o t at = omega (arith, t.bounded at)
  loop (c ∷ calls) cs past history (le, n, o) t at =
      let call = evaluate lower policy c.agent_id c.action c.resource c.dry_run c.now cs in
      let (more, t', le') = advance c cs past history le n t in
      omega (
        arith,
        loop calls call.1 c.now (history ++ more) o t' at,
        le' at,
        count_in-append (window_of r) at history more,
        count_in-append (window_of r) at (approved_at agent_id c call.0)
            (approvals lower policy agent_id calls call.1),
      )

  -- Take a policy with a rate-limit rule whose id no other rule has, and calls of `evaluate` on a new
  -- engine, by any agents, in the order of the clock, with no colon in an agent id. At every moment
  -- the window that ends there holds at most `max_actions` approved actions of one agent (the rule's
  -- limit and window, or their defaults 100 and 60). Dry runs are not counted as actions.
  pub rate_limit_holds :
      (start : ℕ) (calls : List Call)
      → IsOrdered start calls
      → (at : ℕ) → count_in (window_of r) at (approvals lower policy agent_id calls []) ≤ max_of r
  rate_limit_holds start calls o at = omega (
    arith,
    loop calls [] start [] o (unfold lookup in Tracks-start (max_of r) (window_of r) start) at,
  )
