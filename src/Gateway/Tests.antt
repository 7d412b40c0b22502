-- ===== src/Gateway/Tests.antt =====
-- Instances of the theorems on gateway/gateway_service.py: a registered agent reads, under a policy of
-- one rule.
use agent_authorization_gate.Base.{
  ℕ, ◌≡◌, refl, Option, none, some, [], ◌∷◌, Result, ok, err, Str, Bytes, codes, str_eq, hex, false,
}
use agent_authorization_gate.Base.Dict.{lookup, insert, keep}
use agent_authorization_gate.Base.Int.{show_nat}
use agent_authorization_gate.Fixtures.{toy_hash, ascii_lower}
use agent_authorization_gate.Canonical.{
  CanonicalError, canonicalize, serialize, insert_pair, encode_utf8, compare_keys_jcs,
  serialize_string, serialize_char,
}
use agent_authorization_gate.Policy.{
  Policy, evaluate, check_rules, check_rule, check_allowlist, no_config,
}
use agent_authorization_gate.Policy.Hash.{policy_hash, policy_obj, config_dict}
use agent_authorization_gate.Identity.{RegisteredAgent, AgentRegistry, register, forget_kid}
use agent_authorization_gate.Identity.Proofs.{
  Claims, JwtCheck, accepted, invalid_proof, verify_agent_proof, check_proof, check_key,
  check_claims, check_digest, claim_is, verify_checked, use_jti,
}
use agent_authorization_gate.Resources.{is_registered_and_active}
use agent_authorization_gate.Receipts.{body_dict, sign_body, sign_decision, new_chain}
use agent_authorization_gate.Tokens.{Payload, compute_action_digest, intent_obj}
use agent_authorization_gate.Gateway.{
  GatewayService, AuthorizationResponse, AuthorizeError, bad_proof, Call, authorize,
  authorize_digest, prove, proceed, decide, conclude, respond, respond_signed, decision_text,
  token_jti, registration_id, refused_unregistered,
}
use agent_authorization_gate.Gateway.Outcome.{Recorded, response-Recorded}
use agent_authorization_gate.Gateway.Errors.{Raised, error-Raised}

abbrev read_only : Policy
read_only = record {
  version = codes "1";
  require_resource_registration = false;
  rules =
      record {
        id = codes "r";
        type = codes "allowlist";
        config = record no_config { allowed_actions = some (codes "read" ∷ []) };
      }
      ∷ [];
}

abbrev agents : AgentRegistry ℕ
agents = (register (codes "a") 7 (codes "k") none (record { agents = []; by_kid = [] })).1

abbrev gateway : GatewayService ℕ
gateway = record {
  tenant = codes "t";
  policy = read_only;
  counters = [];
  registry = agents;
  resource_registry = record { cache = []; memory = [] };
  receipt_chain = new_chain (codes "t") (codes "gw");
  proof_jti_cache = [];
}

abbrev call : Call
call = record {
  agent_id = codes "a";
  action = codes "read";
  resource = codes "db";
  agent_proof = codes "p";
  parameters = none;
  delegation_context = none;
  now = 10;
  ts = codes "now";
  fresh = codes "j";
}

abbrev digest_of : Result CanonicalError Str → Option Str
digest_of (ok d) = some d
digest_of (err _) = none

abbrev payload : Str → Option Claims
payload _ = some (record {
  sub = codes "a";
  action = some (codes "read");
  resource = some (codes "db");
  action_digest =
      digest_of (compute_action_digest toy_hash (codes "a") (codes "read") (codes "db") none);
  jti = codes "x";
  iat = 5;
})

abbrev echo : Bytes → Str
echo b = b

abbrev encode : Payload → Str
encode p = p.jti

abbrev jwt_check : Str → ℕ → ℕ → JwtCheck
jwt_check p k now = accepted

abbrev Answered : Type 0
Answered =
    (a : AuthorizationResponse) × (h : GatewayService ℕ) × (authorize toy_hash echo encode
        ascii_lower payload jwt_check call gateway
      ≡ (ok a, h))

answered : Answered
unfolding authorize authorize_digest compute_action_digest canonicalize serialize intent_obj
    encode_utf8 insert_pair compare_keys_jcs serialize_string serialize_char proceed prove
    verify_agent_proof verify_checked check_proof str_eq lookup insert keep hex show_nat conclude
    decide decision_text refused_unregistered registration_id respond respond_signed token_jti
    check_claims check_digest check_key claim_is use_jti config_dict policy_hash policy_obj
    check_allowlist check_rule check_rules evaluate body_dict sign_body sign_decision
    is_registered_and_active register forget_kid
answered = (_, _, refl)

response-Recorded_example :
    (digest : Str) × (compute_action_digest toy_hash (codes "a") (codes "read") (codes "db") none
      ≡ ok digest)
    × ((agent : RegisteredAgent ℕ) × ((prove toy_hash echo encode ascii_lower payload jwt_check call
            gateway digest).0
          ≡ ok agent))
    × Recorded toy_hash echo encode ascii_lower payload jwt_check call digest gateway answered.0
        answered.1
response-Recorded_example =
    response-Recorded toy_hash echo encode ascii_lower payload jwt_check call gateway answered.0
      answered.1 answered.2

abbrev no_payload : Str → Option Claims
no_payload _ = none

abbrev refused_proof : AuthorizeError
refused_proof = bad_proof invalid_proof

refused_call :
    authorize toy_hash echo encode ascii_lower no_payload jwt_check call gateway
    ≡ (err refused_proof, gateway)
unfolding authorize authorize_digest compute_action_digest canonicalize serialize intent_obj
    encode_utf8 insert_pair compare_keys_jcs serialize_string serialize_char proceed prove
    verify_agent_proof verify_checked check_proof hex show_nat
refused_call = refl

error-Raised_example :
    Raised toy_hash echo encode ascii_lower no_payload jwt_check gateway refused_proof gateway
error-Raised_example =
    error-Raised toy_hash echo encode ascii_lower no_payload jwt_check call gateway refused_proof
      gateway refused_call
