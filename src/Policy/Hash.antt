-- ===== src/Policy/Hash.antt =====
-- `policy_hash` of gateway/policy.py. The order of a config's keys does not matter: the canonical form
-- sorts them.
use agent_authorization_gate.Base.{
  ℕ, Bool, true, false, Option, none, some, List, [], ◌∷◌, ◌++◌, Result, ok, ◌>>=◌, Str, Bytes,
  codes, hex,
}
use agent_authorization_gate.Base.Int.{pos}
use agent_authorization_gate.Canonical.{
  Value, Items, Fields, nil, cons, end, field, CanonicalError, canonicalize,
}
use agent_authorization_gate.Policy.{RuleConfig, PolicyRule, Policy}

abbrev texts : List Str → Items
texts [] = nil
texts (s ∷ rest) = cons (Value.str s) (texts rest)

abbrev list_entry : Str → Option (List Str) → Fields → Fields
list_entry k none more = more
list_entry k (some l) more = field k (Value.list (texts l)) more

abbrev number_entry : Str → Option ℕ → Fields → Fields
number_entry k none more = more
number_entry k (some n) more = field k (Value.int (pos n)) more

unfoldable pub config_dict : RuleConfig → Fields
config_dict c = list_entry (codes "allowed_actions") c.allowed_actions (
    list_entry (codes "allowed_resources") c.allowed_resources (
      list_entry (codes "denied_resources") c.denied_resources (
        number_entry (codes "max_actions") c.max_actions
          (number_entry (codes "window_seconds") c.window_seconds end))))

abbrev rule_dict : PolicyRule → Fields
rule_dict r = field (codes "id") (Value.str r.id) (
    field (codes "type") (Value.str r.type)
      (field (codes "config") (Value.dict (config_dict r.config)) end))

abbrev rule_list : List PolicyRule → Items
rule_list [] = nil
rule_list (r ∷ rules) = cons (Value.dict (rule_dict r)) (rule_list rules)

abbrev registration_entry : Bool → Fields
registration_entry true = field (codes "require_resource_registration") (Value.bool true) end
registration_entry false = end

unfoldable pub policy_obj : Policy → Fields
policy_obj p = field (codes "v") (Value.str p.version) (
    field (codes "rules") (Value.list (rule_list p.rules))
      (registration_entry p.require_resource_registration))

unfoldable pub policy_hash : (Bytes → Bytes) → Policy → Result CanonicalError Str
policy_hash sha256 p = do
  b ← canonicalize (Value.dict (policy_obj p))
  ok (codes "sha256:" ++ hex (sha256 b))
