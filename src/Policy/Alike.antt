-- ===== src/Policy/Alike.antt =====
-- Two states of the rate counters of gateway/policy.py that no later call tells apart.
use agent_authorization_gate.Base.{
  ℕ, ◌+◌, ◌≡◌, refl, List, [], ◌∷◌, ◌++◌, Str, All, arith, ◌≤◌, ◌⊎◌, ◌≢◌, length, inr, inl, sym,
  Bool, ap, ◌∙◌, ◌||◌, leb, if◌then◌else◌, Bool-cases, str_eq, str_eq_iff, subst, ap₂,
}
use agent_authorization_gate.Policy.{
  PolicyRule, counter_key, check_rule, check_rules, check_rate_limit, Counters, stamps, window_of,
  max_of, is_fresh,
}
use agent_authorization_gate.Policy.Verdict.{Distinct}
use agent_authorization_gate.Policy.Outcome.{cleaned, other_rule, stamps-insert_self}
use agent_authorization_gate.Policy.Keys.{NoColon, counter_key-injective}
use agent_authorization_gate.Policy.Window.{filter_twice, length-filter_append}
use agent_authorization_gate.Base.Dict.{insert}

-- From a time on, a rule counts as many stamps of an agent in the one state as in the other.
abbrev pub SameCounts : ℕ → Str → Counters → Counters → PolicyRule → Type 0
SameCounts now b cs cs' s =
    (at : ℕ)
    → now ≤ at
    → length (cleaned s at (stamps (counter_key b s) cs))
      ≡ length (cleaned s at (stamps (counter_key b s) cs'))

-- The same for each rule of a list and each agent.
abbrev pub Indistinct : ℕ → List PolicyRule → Counters → Counters → Type 0
Indistinct now rules cs cs' = (b : Str) → NoColon b → All (SameCounts now b cs cs') rules

-- Each rule of a list is the given one, or has another id.
abbrev pub ApartFrom : List PolicyRule → PolicyRule → Type 0
ApartFrom rules s = All (λ r. (r ≡ s) ⊎ (r.id ≢ s.id)) rules

apart_each :
    (r : PolicyRule) (rules : List PolicyRule) → All (λ s. s.id ≢ r.id) rules → ApartFrom rules r
apart_each r [] h = tt
apart_each r (s ∷ rules) (d, h) = (inr d, apart_each r rules h)

apart_cons :
    (r : PolicyRule) (rules xs : List PolicyRule)
    → All (λ s. s.id ≢ r.id) xs
    → All (ApartFrom rules) xs
    → All (ApartFrom (r ∷ rules)) xs
apart_cons r rules [] h k = tt
apart_cons r rules (s ∷ xs) (d, h) (a, k) = ((inr (λ e. d (sym e)), a), apart_cons r rules xs h k)

pub apart : (rules : List PolicyRule) → Distinct rules → All (ApartFrom rules) rules
apart [] d = tt
apart (r ∷ rules) (n, d) =
    ((inl refl, apart_each r rules n), apart_cons r rules rules n (apart rules d))

-- How many stamps a check adds to what a later window holds.
abbrev added : PolicyRule → Bool → ℕ → ℕ → ℕ → ℕ
added s dry_run now at n =
    if leb (max_of s) n || dry_run then 0 else length (cleaned s at (now ∷ []))

check_adds :
    (s : PolicyRule) (b : Str) (dry_run : Bool) (now at : ℕ) (cs : Counters)
    → now ≤ at
    → length (cleaned s at (stamps (counter_key b s) (check_rate_limit s b dry_run now cs).1))
      ≡ length (cleaned s at (stamps (counter_key b s) cs))
        + added s dry_run now at (length (cleaned s now (stamps (counter_key b s) cs)))
unfolding check_rate_limit
check_adds s b dry_run now at cs le =
    let k = counter_key b s in
    let fresh = cleaned s now (stamps k cs) in
    ground (
      arith,
      stamps-insert_self k fresh cs,
      stamps-insert_self k (fresh ++ now ∷ []) (insert k fresh cs),
      filter_twice (window_of s) now at (stamps k cs) le,
      length-filter_append (is_fresh (window_of s) at) fresh (now ∷ []),
    )

check_alike :
    (s : PolicyRule) (b : Str) (dry_run : Bool) (now : ℕ) (cs cs' : Counters)
    → SameCounts now b cs cs' s
    → SameCounts now b
        (check_rate_limit s b dry_run now cs).1
        (check_rate_limit s b dry_run now cs').1
        s
check_alike s b dry_run now cs cs' h at le =
    check_adds s b dry_run now at cs le
    ∙ ap₂ (λ (m n : ℕ). m + added s dry_run now at n) (h at le) (h now (omega arith))
    ∙ sym (check_adds s b dry_run now at cs' le)

module _ (lower : Str → Str) (a action resource : Str) (dry_run : Bool) (now : ℕ)
    (named : NoColon a) where
  own_rule :
      (s : PolicyRule) (cs cs' : Counters)
      → SameCounts now a cs cs' s
      → SameCounts now a
          (check_rule lower s a action resource dry_run now cs).1
          (check_rule lower s a action resource dry_run now cs').1
          s
  unfolding check_rule
  own_rule s cs cs' h at le = ground (arith, check_alike s a dry_run now cs cs' h at le, h at le)

  -- A rule that has another counter leaves the counts alone.
  apart_rule :
      (b : Str) (s r : PolicyRule) (cs cs' : Counters)
      → counter_key a r ≢ counter_key b s
      → SameCounts now b cs cs' s
      → SameCounts now b
          (check_rule lower r a action resource dry_run now cs).1
          (check_rule lower r a action resource dry_run now cs').1
          s
  apart_rule b s r cs cs' ne h at le =
      let same = λ (c : Counters).
        ap (λ (kept : List ℕ). length (cleaned s at kept))
          (other_rule lower (counter_key b s) r a action resource dry_run now c ne) in
      same cs ∙ h at le ∙ sym (same cs')

  rule_alike :
      (b : Str) (s r : PolicyRule) (cs cs' : Counters)
      → NoColon b
      → (r ≡ s) ⊎ (r.id ≢ s.id)
      → SameCounts now b cs cs' s
      → SameCounts now b
          (check_rule lower r a action resource dry_run now cs).1
          (check_rule lower r a action resource dry_run now cs').1
          s
  rule_alike b s r cs cs' n d h = elim (Bool-cases (str_eq a b)) [
    | inr other ↦
        apart_rule b s r cs cs'
          (λ e. cc (other, (str_eq_iff a b).1 (counter_key-injective a b r s named n e).0)) h
    | inl own ↦
        let e = (str_eq_iff a b).0 own in
        elim d [
          | inr differ ↦
              apart_rule b s r cs cs' (λ k. differ (counter_key-injective a b r s named n k).1) h
          | inl same ↦
              subst
                (λ q.
                  SameCounts now b (check_rule lower q a action resource dry_run now cs).1
                    (check_rule lower q a action resource dry_run now cs').1 s)
                (sym same)
                (subst
                  (λ c.
                    SameCounts now c cs cs' s
                    → SameCounts now c (check_rule lower s a action resource dry_run now cs).1
                        (check_rule lower s a action resource dry_run now cs').1 s)
                  e (own_rule s cs cs') h)
        ]
  ]

  pub rules_alike :
      (b : Str) (s : PolicyRule) (rules : List PolicyRule) (cs cs' : Counters)
      → NoColon b
      → ApartFrom rules s
      → SameCounts now b cs cs' s
      → SameCounts now b
          (check_rules lower rules a action resource dry_run now cs).1
          (check_rules lower rules a action resource dry_run now cs').1
          s
  unfolding check_rules
  rules_alike b s [] cs cs' n d h = h
  rules_alike b s (r ∷ rules) cs cs' n (d, ds) h =
      rules_alike b s rules (check_rule lower r a action resource dry_run now cs).1
        (check_rule lower r a action resource dry_run now cs').1 n ds
        (rule_alike b s r cs cs' n d h)
