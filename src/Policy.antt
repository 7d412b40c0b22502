-- ===== src/Policy.antt =====
-- gateway/policy.py: the policy engine. `lower` stands for Python's `str.lower`, whose Unicode tables
-- are not modelled. Times and windows are whole numbers of one unit; the clock is read once for each
-- call of `evaluate`. A rule's `config` has the keys that the three rule types read.
pub mod Keys
pub mod Verdict
pub mod Window
pub mod Outcome
pub mod Alike
pub mod DryRun
pub mod RateLimit
pub mod Hash
pub mod Tests
use agent_authorization_gate.Base.{
  ℕ, ◌+◌, Bool, true, false, not, Option, none, some, List, [], ◌∷◌, ◌++◌, Str, codes, str_eq,
  contains_text, filter, any, length, ltb, leb, if◌then◌else◌,
}
use agent_authorization_gate.Base.Dict.{Dict, lookup, insert}

pub record RuleConfig : Type 0 where
  pub allowed_actions : Option (List Str)
  pub allowed_resources : Option (List Str)
  pub denied_resources : Option (List Str)
  pub max_actions : Option ℕ
  pub window_seconds : Option ℕ

-- `type` is any text: a rule of an unknown type is skipped.
pub record PolicyRule : Type 0 where
  pub id : Str
  pub type : Str
  pub config : RuleConfig

pub record Policy : Type 0 where
  pub rules : List PolicyRule
  pub version : Str
  pub require_resource_registration : Bool

pub data Decision : Type 0 where
  approve deny : Decision

pub record EvaluationResult : Type 0 where
  pub decision : Decision
  pub reason_codes : List Str

-- The stamps of the counted actions, by agent and rule.
abbrev pub Counters : Type 0
Counters = Dict (List ℕ)

-- `config.get(key, default)`
abbrev pub get_or {ℓ} : {A : Type ℓ} → Option A → A → A
get_or none d = d
get_or (some a) d = a

abbrev pub allowlist : Str
allowlist = codes "allowlist"

abbrev pub resource_scope : Str
resource_scope = codes "resource_scope"

abbrev pub rate_limit : Str
rate_limit = codes "rate_limit"

abbrev pub is_empty : List Str → Bool
is_empty [] = true
is_empty (_ ∷ _) = false

-- `f"{agent_id}:{rule.id}"`
unfoldable pub counter_key : Str → PolicyRule → Str
counter_key agent_id rule = agent_id ++ b':' ∷ rule.id

abbrev pub max_of : PolicyRule → ℕ
max_of rule = get_or rule.config.max_actions 100

abbrev pub window_of : PolicyRule → ℕ
window_of rule = get_or rule.config.window_seconds 60

-- `t > now - window_seconds`, over the integers.
abbrev pub is_fresh : ℕ → ℕ → ℕ → Bool
is_fresh window now t = ltb now (t + window)

abbrev pub stamps : Str → Counters → List ℕ
stamps key counters = get_or (lookup key counters) []

-- `_check_rate_limit`: whether the rule passes, and the counters after it.
unfoldable pub check_rate_limit : PolicyRule → Str → Bool → ℕ → Counters → Bool × Counters
check_rate_limit rule agent_id dry_run now counters =
    let key = counter_key agent_id rule in
    let fresh = filter (is_fresh (window_of rule) now) (stamps key counters) in
    let cleaned = insert key fresh counters in
    if leb (max_of rule) (length fresh)
    then (false, cleaned)
    else if dry_run
    then (true, cleaned)
    else (true, insert key (fresh ++ now ∷ []) cleaned)

-- The result: any reason denies.
abbrev pub decide_by : List Str → EvaluationResult
decide_by [] = record { decision = approve; reason_codes = [] }
decide_by (r ∷ rs) = record { decision = deny; reason_codes = r ∷ rs }

module _ (lower : Str → Str) where
  unfoldable pub check_allowlist : PolicyRule → Str → Bool
  check_allowlist rule action =
      let allowed = get_or rule.config.allowed_actions [] in
      if is_empty allowed then true else any (λ a. str_eq (lower a) (lower action)) allowed

  unfoldable pub check_resource_scope : PolicyRule → Str → Bool
  check_resource_scope rule resource =
      let allowed = get_or rule.config.allowed_resources [] in
      let denied = get_or rule.config.denied_resources [] in
      if any (λ d. contains_text (lower d) (lower resource)) denied
      then false
      else if is_empty allowed
      then true
      else any (λ a. contains_text (lower a) (lower resource)) allowed

  -- The body of the loop over the rules: the reasons that a rule adds, and the counters after it.
  unfoldable pub check_rule :
      PolicyRule → Str → Str → Str → Bool → ℕ → Counters → List Str × Counters
  check_rule rule agent_id action resource dry_run now counters =
      if str_eq rule.type allowlist
      then (
        if check_allowlist rule action then [] else (codes "ACTION_NOT_ALLOWED:" ++ rule.id) ∷ [],
        counters,
      )
      else if str_eq rule.type resource_scope
      then (
        if check_resource_scope rule resource
            then []
            else (codes "RESOURCE_OUT_OF_SCOPE:" ++ rule.id) ∷ [],
        counters,
      )
      else if str_eq rule.type rate_limit
      then (let (passed, counters') = check_rate_limit rule agent_id dry_run now counters in
          (if passed then [] else (codes "RATE_LIMIT_EXCEEDED:" ++ rule.id) ∷ [], counters'))
      else ([], counters)

  -- The loop over the rules.
  unfoldable pub check_rules :
      List PolicyRule → Str → Str → Str → Bool → ℕ → Counters → List Str × Counters
  check_rules [] agent_id action resource dry_run now counters = ([], counters)
  check_rules (rule ∷ rules) agent_id action resource dry_run now counters =
      let (reasons, counters') = check_rule rule agent_id action resource dry_run now counters in
      let (more, counters'') = check_rules rules agent_id action resource dry_run now counters' in
      (reasons ++ more, counters'')

  unfoldable pub evaluate :
      Policy → Str → Str → Str → Bool → ℕ → Counters → EvaluationResult × Counters
  evaluate policy agent_id action resource dry_run now counters =
      let (reasons, counters') =
        check_rules policy.rules agent_id action resource dry_run now counters in
      (decide_by reasons, counters')

abbrev pub no_config : RuleConfig
no_config = record {
  allowed_actions = none;
  allowed_resources = none;
  denied_resources = none;
  max_actions = none;
  window_seconds = none;
}

abbrev pub create_demo_policy : Policy
create_demo_policy = record {
  version = codes "1";
  require_resource_registration = false;
  rules =
      record {
        id = codes "allowed_actions";
        type = allowlist;
        config = record no_config {
          allowed_actions = some (
              codes "read"
              ∷ codes "query"
              ∷ codes "list"
              ∷ codes "get"
              ∷ codes "search"
              ∷ codes "analyze"
              ∷ []);
        };
      }
      ∷ record {
        id = codes "resource_scope";
        type = resource_scope;
        config = record no_config {
          allowed_resources =
              some (codes "staging" ∷ codes "dev" ∷ codes "sandbox" ∷ codes "test" ∷ []);
          denied_resources =
              some (codes "production" ∷ codes "prod" ∷ codes "master-key" ∷ codes "admin" ∷ []);
        };
      }
      ∷ record {
        id = codes "rate_limit";
        type = rate_limit;
        config = record no_config { max_actions = some 10; window_seconds = some 60 };
      }
      ∷ [];
}
