-- ===== src/Policy/Keys.antt =====
-- The keys of the rate counters: `f"{agent_id}:{rule.id}"` tells agents and rules apart as long as no
-- agent id has a colon, which `validate_agent_id` of gateway/identity.py rules out.
use agent_authorization_gate.Base.{◌≡◌, refl, [], ◌∷◌, ◌++◌, Str, All, arith, ◌≢◌}
use agent_authorization_gate.Policy.{PolicyRule, counter_key}

abbrev pub NoColon : Str → Type 0
NoColon s = All (λ c. c ≢ b':') s

pub colon_splits :
    (a b x y : Str) → NoColon a → NoColon b → a ++ b':' ∷ x ≡ b ++ b':' ∷ y → (a ≡ b) × (x ≡ y)
colon_splits [] [] x y h k e = (refl, cc)
colon_splits [] (c ∷ b) x y h k e = absurd (k.0 (cc))
colon_splits (c ∷ a) [] x y h k e = absurd (h.0 (cc))
colon_splits (c ∷ a) (d ∷ b) x y h k e =
    let ih = colon_splits a b x y h.1 k.1 (cc) in ground (arith, ih)

-- Different agents, or different rules, have different counters.
pub counter_key-injective :
    (a b : Str) (r s : PolicyRule)
    → NoColon a
    → NoColon b
    → counter_key a r ≡ counter_key b s
    → (a ≡ b) × (r.id ≡ s.id)
unfolding counter_key
counter_key-injective a b r s h k e = colon_splits a b r.id s.id h k e

same_prefix : (a x y : Str) → a ++ x ≡ a ++ y → x ≡ y
same_prefix [] x y e = e
same_prefix (c ∷ a) x y e = same_prefix a x y (cc)

-- Within one agent the rule ids alone tell the counters apart.
pub counter_key-cancel :
    (a : Str) (r s : PolicyRule) → counter_key a r ≡ counter_key a s → r.id ≡ s.id
unfolding counter_key
counter_key-cancel a r s e =
    let rest : b':' ∷ r.id ≡ b':' ∷ s.id = same_prefix a (b':' ∷ r.id) (b':' ∷ s.id) e in cc
