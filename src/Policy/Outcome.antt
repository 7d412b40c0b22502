-- ===== src/Policy/Outcome.antt =====
-- What `_check_rate_limit` and the loop over the rules do to one rate counter (gateway/policy.py).
use agent_authorization_gate.Base.{
  ℕ, ◌≡◌, refl, List, [], ◌∷◌, ◌++◌, Str, All, arith, Bool, ◌≢◌, ◌∙◌, filter, false, str_eq_iff,
  ◌⊎◌, true, length, ◌<◌, inl, inr, str_eq, ap, if◌then◌else◌, codes,
}
use agent_authorization_gate.Base.Dict.{lookup-insert, insert}
use agent_authorization_gate.Policy.{
  PolicyRule, counter_key, check_rule, check_rules, check_rate_limit, Counters, stamps, is_fresh,
  window_of, max_of, rate_limit, allowlist, resource_scope,
}

stamps-insert_ne :
    (k j : Str) (v : List ℕ) (cs : Counters) → k ≢ j → stamps j (insert k v cs) ≡ stamps j cs
stamps-insert_ne k j v cs h = ground (arith, lookup-insert k j v cs, str_eq_iff k j)

pub stamps-insert_self : (k : Str) (v : List ℕ) (cs : Counters) → stamps k (insert k v cs) ≡ v
stamps-insert_self k v cs = ground (arith, lookup-insert k k v cs, str_eq_iff k k)

-- The cleaned stamps of a rule's counter.
abbrev pub cleaned : PolicyRule → ℕ → List ℕ → List ℕ
cleaned r now kept = filter (is_fresh (window_of r) now) kept

module _ (r : PolicyRule) (agent_id : Str) (dry_run : Bool) (now : ℕ) (cs : Counters) where
  check_other :
      (key : Str)
      → counter_key agent_id r ≢ key
      → stamps key (check_rate_limit r agent_id dry_run now cs).1 ≡ stamps key cs
  unfolding check_rate_limit
  check_other key ne =
      let k = counter_key agent_id r in
      let fresh = cleaned r now (stamps k cs) in
      ground (
        arith,
        stamps-insert_ne k key fresh cs ne,
        stamps-insert_ne k key (fresh ++ now ∷ []) (insert k fresh cs) ne,
      )

  -- A check that fails, or that is dry, cleans the counter. One that passes and is not dry found room
  -- and adds the stamp.
  pub check_self :
      let k = counter_key agent_id r in
      let fresh = cleaned r now (stamps k cs) in
      let (passed, cs') = check_rate_limit r agent_id dry_run now cs in
      ((stamps k cs' ≡ fresh) × ((passed ≡ false) ⊎ (dry_run ≡ true)))
      ⊎ ((stamps k cs' ≡ fresh ++ now ∷ []) × (length fresh < max_of r))
  unfolding check_rate_limit
  check_self =
      let k = counter_key agent_id r in
      let fresh = cleaned r now (stamps k cs) in
      ground (
        arith,
        stamps-insert_self k fresh cs,
        stamps-insert_self k (fresh ++ now ∷ []) (insert k fresh cs),
      )

module _ (lower : Str → Str) (key : Str) where
  -- A rule with another counter leaves this counter alone.
  pub other_rule :
      (r : PolicyRule) (agent_id action resource : Str) (dry_run : Bool) (now : ℕ) (cs : Counters)
      → counter_key agent_id r ≢ key
      → stamps key (check_rule lower r agent_id action resource dry_run now cs).1 ≡ stamps key cs
  unfolding check_rule
  other_rule r agent_id action resource dry_run now cs ne =
      ground (arith, check_other r agent_id dry_run now cs key ne)

  pub other_rules :
      (rules : List PolicyRule) (agent_id action resource : Str) (dry_run : Bool) (now : ℕ)
      (cs : Counters)
      → All (λ r. counter_key agent_id r ≢ key) rules
      → stamps key (check_rules lower rules agent_id action resource dry_run now cs).1
        ≡ stamps key cs
  unfolding check_rules
  other_rules [] agent_id action resource dry_run now cs h = refl
  other_rules (r ∷ rules) agent_id action resource dry_run now cs (ne, h) =
      other_rules rules agent_id action resource dry_run now
        (check_rule lower r agent_id action resource dry_run now cs).1 h
      ∙ other_rule r agent_id action resource dry_run now cs ne

-- What one call does to the counter of a rate-limit rule of its agent.
abbrev pub Outcome : PolicyRule → Bool → ℕ → List ℕ → List ℕ → List Str → Type 0
Outcome r dry_run now kept kept' reasons =
    ((kept' ≡ cleaned r now kept) × ((reasons ≢ []) ⊎ (dry_run ≡ true)))
    ⊎ ((kept' ≡ cleaned r now kept ++ now ∷ []) × (length (cleaned r now kept) < max_of r))

more_reasons : (xs ys : List Str) → ys ≢ [] → xs ++ ys ≢ []
more_reasons [] ys h e = h e
more_reasons (x ∷ xs) ys h e = cc

some_reasons : (xs ys : List Str) → xs ≢ [] → xs ++ ys ≢ []
some_reasons [] ys h e = absurd (h refl)
some_reasons (x ∷ xs) ys h e = cc

Outcome-after :
    (r : PolicyRule) (dry_run : Bool) (now : ℕ) (kept kept' kept'' : List ℕ) (xs ys : List Str)
    → Outcome r dry_run now kept kept' xs
    → kept'' ≡ kept'
    → Outcome r dry_run now kept kept'' (xs ++ ys)
Outcome-after r dry_run now kept kept' kept'' xs ys (inl (e, inl n)) p =
    inl (p ∙ e, inl (some_reasons xs ys n))
Outcome-after r dry_run now kept kept' kept'' xs ys (inl (e, inr d)) p = inl (p ∙ e, inr d)
Outcome-after r dry_run now kept kept' kept'' xs ys (inr (e, n)) p = inr (p ∙ e, n)

Outcome-before :
    (r : PolicyRule) (dry_run : Bool) (now : ℕ) (kept kept' : List ℕ) (xs ys : List Str)
    → Outcome r dry_run now kept kept' ys
    → Outcome r dry_run now kept kept' (xs ++ ys)
Outcome-before r dry_run now kept kept' xs ys (inl (e, inl n)) = inl (e, inl (more_reasons xs ys n))
Outcome-before r dry_run now kept kept' xs ys (inl (e, inr d)) = inl (e, inr d)
Outcome-before r dry_run now kept kept' xs ys (inr o) = inr o

module _ (lower : Str → Str) (r : PolicyRule) (typed : r.type ≡ rate_limit)
    (agent_id action resource : Str) (dry_run : Bool) (now : ℕ) where
  abbrev pub own_key : Str
  own_key = counter_key agent_id r

  is_rate_limit :
      (str_eq r.type allowlist ≡ false)
      × (str_eq r.type resource_scope ≡ false)
      × (str_eq r.type rate_limit ≡ true)
  unfolding str_eq
  is_rate_limit = (
    ap (λ t. str_eq t allowlist) typed,
    ap (λ t. str_eq t resource_scope) typed,
    ap (λ t. str_eq t rate_limit) typed,
  )

  pub check_rule_rate :
      (cs : Counters)
      → check_rule lower r agent_id action resource dry_run now cs ≡ (
          let (passed, cs') = check_rate_limit r agent_id dry_run now cs in
          (if passed then [] else (codes "RATE_LIMIT_EXCEEDED:" ++ r.id) ∷ [], cs'))
  unfolding check_rule
  check_rule_rate cs = ground (arith, is_rate_limit)

  rule_outcome :
      (cs : Counters)
      → let (reasons, cs') = check_rule lower r agent_id action resource dry_run now cs in
        Outcome r dry_run now (stamps own_key cs) (stamps own_key cs') reasons
  rule_outcome cs = rw (check_rule_rate cs) (ground (arith, check_self r agent_id dry_run now cs))

  pub rules_outcome :
      (before after : List PolicyRule) (cs : Counters)
      → All (λ s. counter_key agent_id s ≢ own_key) before
      → All (λ s. counter_key agent_id s ≢ own_key) after
      → let (reasons, cs') =
          check_rules lower (before ++ r ∷ after) agent_id action resource dry_run now cs in
        Outcome r dry_run now (stamps own_key cs) (stamps own_key cs') reasons
  unfolding check_rules
  rules_outcome [] after cs b a =
      let step = check_rule lower r agent_id action resource dry_run now cs in
      Outcome-after r dry_run now _ (stamps own_key step.1) _ step.0 _ (rule_outcome cs)
        (other_rules lower own_key after agent_id action resource dry_run now step.1 a)
  rules_outcome (s ∷ before) after cs (n, b) a =
      let step = check_rule lower s agent_id action resource dry_run now cs in
      Outcome-before r dry_run now _ _ step.0 _ (
        rw (other_rule lower own_key s agent_id action resource dry_run now cs n) at
          (rules_outcome before after step.1 b a))
