-- ===== src/Gateway.antt =====
-- gateway/gateway_service.py: `authorize`, which composes the proof, the policy, the receipt and the
-- token. `fresh` is the token id that it draws; the clock is read once for each call; `encode` stands
-- for `jwt.encode` under the gateway's key.
pub mod Outcome
pub mod Verdict
pub mod Errors
pub mod Tests
use agent_authorization_gate.Base.{
  ℕ, Bool, true, false, not, ◌&&◌, Option, none, some, List, [], ◌∷◌, ◌++◌, map, Result, ok, err,
  Str, Bytes, codes, if◌then◌else◌,
}
use agent_authorization_gate.Base.Dict.{Dict}
use agent_authorization_gate.Canonical.{Fields, CanonicalError}
use agent_authorization_gate.Policy.{
  Policy, Decision, approve, deny, EvaluationResult, Counters, evaluate,
}
use agent_authorization_gate.Policy.Hash.{policy_hash}
use agent_authorization_gate.Identity.{AgentRegistry, RegisteredAgent}
use agent_authorization_gate.Identity.Proofs.{
  Claims, JwtCheck, ProofError, Expected, verify_agent_proof,
}
use agent_authorization_gate.Resources.{ResourceRegistry, is_registered_and_active}
use agent_authorization_gate.Receipts.{
  Receipt, ReceiptChain, Request, Envelope, envelope_dict, sign_decision,
}
use agent_authorization_gate.Tokens.{Payload, token_payload, compute_action_digest}

pub record GatewayService {ℓ} (K : Type ℓ) : Type ℓ where
  pub tenant : Str
  pub policy : Policy
  pub counters : Counters
  pub registry : AgentRegistry K
  pub resource_registry : ResourceRegistry
  pub receipt_chain : ReceiptChain
  pub proof_jti_cache : Dict ℕ

pub record AuthorizationResponse : Type 0 where
  pub decision : Str
  pub reason_codes : List Str
  pub token : Option Str
  pub receipt : Envelope
  pub action_digest : Str
  pub receipt_hash : Str

-- What `authorize` raises.
pub data AuthorizeError : Type 0 where
  no_proof : AuthorizeError
  not_canonical : CanonicalError → AuthorizeError
  bad_proof : ProofError → AuthorizeError

-- The arguments of `authorize`, and the time and the id that a call draws.
pub record Call : Type 0 where
  pub agent_id : Str
  pub action : Str
  pub resource : Str
  pub agent_proof : Str
  pub parameters : Option Fields
  pub delegation_context : Option Fields
  pub now : ℕ
  pub ts : Str
  pub fresh : Str

unfoldable pub decision_text : Decision → Str
decision_text approve = codes "approve"
decision_text deny = codes "deny"

-- `token_jti`
unfoldable pub token_jti : Decision → Str → Option Str
token_jti approve fresh = some fresh
token_jti deny fresh = none

-- `resource_registration_id`
unfoldable pub registration_id : Bool → Str → Option Str
registration_id true resource = some resource
registration_id false resource = none

-- `self.policy.require_resource_registration and resource_registration_id is None`
unfoldable pub refused_unregistered : Bool → Option Str → Bool
refused_unregistered required none = required
refused_unregistered required (some _) = false

abbrev pub is_empty : Str → Bool
is_empty [] = true
is_empty (_ ∷ _) = false

-- The denial of strict mode.
abbrev pub unregistered : EvaluationResult
unregistered = record { decision = deny; reason_codes = codes "RESOURCE_NOT_REGISTERED" ∷ [] }

module _ {ℓ} {K : Type ℓ} (sha256 : Bytes → Bytes) (sign : Bytes → Str) (encode : Payload → Str)
    (lower : Str → Str) (payload : Str → Option Claims) (jwt_check : Str → K → ℕ → JwtCheck) where
  -- The token of step 4.
  unfoldable pub issued_token : Call → GatewayService K → Str → Decision → Receipt → Option Str
  issued_token c g digest deny r = none
  issued_token c g digest approve r = some (
      encode (
        token_payload c.agent_id c.action c.resource digest (decision_text approve) r.receipt_hash
          g.tenant (some c.fresh) c.fresh c.now))

  unfoldable pub respond_signed :
      Call
      → GatewayService K
      → Str
      → EvaluationResult
      → Result CanonicalError Receipt
      → Result AuthorizeError AuthorizationResponse × GatewayService K
  respond_signed c g digest result (err e) = (err (not_canonical e), g)
  respond_signed c g digest result (ok r) = (
    ok (record {
      decision = decision_text result.decision;
      reason_codes = result.reason_codes;
      token = issued_token c g digest result.decision r;
      receipt = envelope_dict r;
      action_digest = digest;
      receipt_hash = r.receipt_hash;
    }),
    g,
  )

  -- The receipt, the token and the response, once the policy's hash is known.
  unfoldable pub respond :
      Call
      → GatewayService K
      → Str
      → Option Str
      → EvaluationResult
      → Str
      → Result AuthorizeError AuthorizationResponse × GatewayService K
  respond c g digest registration result version =
      let request : Request = record {
        request_digest = digest;
        policy_version = version;
        decision = decision_text result.decision;
        reasons = result.reason_codes;
        token_jti = token_jti result.decision c.fresh;
        resource_registration_id = registration;
        delegation_context = c.delegation_context;
      } in
      let (signed, chain) = sign_decision sha256 sign c.ts request g.receipt_chain in
      respond_signed c (record g { receipt_chain = chain }) digest result signed

  -- `policy_hash`, then the receipt.
  unfoldable pub conclude :
      Call
      → GatewayService K
      → Str
      → Option Str
      → EvaluationResult
      → Result AuthorizeError AuthorizationResponse × GatewayService K
  conclude c g digest registration result = elim (policy_hash sha256 g.policy) [
    | err e ↦ (err (not_canonical e), g)
    | ok version ↦ respond c g digest registration result version
  ]

  -- Steps 1 to 4: the registration of the resource, then the policy.
  unfoldable pub decide :
      Call → GatewayService K → Str → Result AuthorizeError AuthorizationResponse × GatewayService K
  decide c g digest =
      let registration =
        registration_id (is_registered_and_active c.resource c.now g.resource_registry)
          c.resource in
      let (result, counters) =
        evaluate lower g.policy c.agent_id c.action c.resource false c.now g.counters in
      if refused_unregistered g.policy.require_resource_registration registration
      then conclude c g digest none unregistered
      else conclude c (record g { counters = counters }) digest registration result

  -- What follows the verification of the proof.
  unfoldable pub proceed :
      Call
      → GatewayService K
      → Str
      → Result ProofError (RegisteredAgent K)
      → Result AuthorizeError AuthorizationResponse × GatewayService K
  proceed c g digest (err e) = (err (bad_proof e), g)
  proceed c g digest (ok agent) = decide c g digest

  -- The verification of the proof, which must be bound to the digest.
  unfoldable pub prove :
      Call → GatewayService K → Str → Result ProofError (RegisteredAgent K) × Dict ℕ
  prove c g digest =
      verify_agent_proof payload jwt_check c.agent_proof g.registry
        (record {
          agent_id = c.agent_id;
          action = c.action;
          resource = c.resource;
          action_digest = some digest;
        })
        c.now g.proof_jti_cache

  unfoldable pub authorize_digest :
      Call
      → GatewayService K
      → Result CanonicalError Str
      → Result AuthorizeError AuthorizationResponse × GatewayService K
  authorize_digest c g (err e) = (err (not_canonical e), g)
  authorize_digest c g (ok digest) =
      let (verified, cache) = prove c g digest in
      proceed c (record g { proof_jti_cache = cache }) digest verified

  unfoldable pub authorize :
      Call → GatewayService K → Result AuthorizeError AuthorizationResponse × GatewayService K
  authorize c g =
      let digest = compute_action_digest sha256 c.agent_id c.action c.resource c.parameters in
      if is_empty c.agent_proof then (err no_proof, g) else authorize_digest c g digest
