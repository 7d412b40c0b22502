-- ===== src/Gateway/Verdict.antt =====
-- The decision of gateway/gateway_service.py against its policy and its resource registry.
use agent_authorization_gate.Base.{ℕ, ◌≡◌, false, not, ◌&&◌, Option, Str, Bytes, if◌then◌else◌}
use agent_authorization_gate.Policy.{EvaluationResult, Counters, evaluate}
use agent_authorization_gate.Identity.Proofs.{Claims, JwtCheck}
use agent_authorization_gate.Resources.{is_registered_and_active}
use agent_authorization_gate.Tokens.{Payload}
use agent_authorization_gate.Gateway.{
  GatewayService, AuthorizationResponse, Call, decision_text, unregistered,
}

module _ {ℓ} {K : Type ℓ} (sha256 : Bytes → Bytes) (sign : Bytes → Str) (encode : Payload → Str)
    (lower : Str → Str) (payload : Str → Option Claims) (jwt_check : Str → K → ℕ → JwtCheck) where
  -- The response has the decision and the reasons of a result, and the call left these counters.
  abbrev pub Follows :
      EvaluationResult × Counters → AuthorizationResponse → GatewayService K → Type 0
  Follows p a h =
      (a.decision ≡ decision_text p.0.decision)
      × (a.reason_codes ≡ p.0.reason_codes)
      × (h.counters ≡ p.1)

  -- What `authorize` has to decide: the refusal of strict mode, or the policy's result.
  abbrev pub due_result : Call → GatewayService K → EvaluationResult × Counters
  due_result c g =
      if g.policy.require_resource_registration
        && not (is_registered_and_active c.resource c.now g.resource_registry)
      then (unregistered, g.counters)
      else evaluate lower g.policy c.agent_id c.action c.resource false c.now g.counters
