-- ===== src/Gateway/Outcome.antt =====
-- What a response of gateway/gateway_service.py guarantees.
use agent_authorization_gate.Base.{
  ℕ, ◌≡◌, ◌≢◌, refl, sym, ap, ◌∙◌, false, Bool-cases, ◌⊎◌, inl, inr, Option, none, some, List, [],
  ◌∷◌, ◌++◌, Result, ok, err, Result-cases, Str, Bytes, codes,
}
use agent_authorization_gate.Canonical.{CanonicalError}
use agent_authorization_gate.Policy.{Decision, approve, deny, EvaluationResult, evaluate}
use agent_authorization_gate.Resources.{is_registered_and_active}
use agent_authorization_gate.Policy.Hash.{policy_hash}
use agent_authorization_gate.Identity.{RegisteredAgent}
use agent_authorization_gate.Identity.Proofs.{Claims, JwtCheck, ProofError}
use agent_authorization_gate.Receipts.{Receipt, ReceiptChain, Request, envelope_dict, sign_decision}
use agent_authorization_gate.Receipts.Issue.{sign_decision-ok}
use agent_authorization_gate.Tokens.{Payload, token_payload, compute_action_digest}
use agent_authorization_gate.Gateway.{
  GatewayService, AuthorizationResponse, Call, decision_text, token_jti, issued_token,
  respond_signed, respond, conclude, decide, proceed, prove, authorize_digest, authorize, is_empty,
  registration_id, refused_unregistered, unregistered,
}

module _ {ℓ} {K : Type ℓ} (sha256 : Bytes → Bytes) (sign : Bytes → Str) (encode : Payload → Str)
    (lower : Str → Str) (payload : Str → Option Claims) (jwt_check : Str → K → ℕ → JwtCheck) where
  -- The decision, and the token that belongs to it: an approval has the token whose payload names the
  -- receipt's hash, and whose id the receipt names; a denial has none.
  abbrev pub Bound : Call → Str → Str → AuthorizationResponse → Receipt → Type 0
  Bound c tenant digest a r =
      ((a.decision ≡ codes "approve")
        × (a.token
            ≡ some (
                encode (
                  token_payload c.agent_id c.action c.resource digest (codes "approve")
                    r.receipt_hash tenant (some c.fresh) c.fresh c.now)))
        × (r.token_jti ≡ some c.fresh))
      ⊎ ((a.decision ≡ codes "deny") × (a.token ≡ none) × (r.token_jti ≡ none))

  -- The response reports the one receipt that the call appended to the chain.
  abbrev pub Recorded :
      Call → Str → GatewayService K → AuthorizationResponse → GatewayService K → Type 0
  Recorded c digest g a h =
      (r : Receipt) × (h.receipt_chain.receipts ≡ g.receipt_chain.receipts ++ r ∷ [])
      × (a.receipt ≡ envelope_dict r)
      × (a.receipt_hash ≡ r.receipt_hash)
      × (a.action_digest ≡ digest)
      × (r.request_digest ≡ digest)
      × (r.decision ≡ a.decision)
      × (r.reasons ≡ a.reason_codes)
      × Bound c g.tenant digest a r

  signed_recorded :
      (c : Call) (g : GatewayService K) (digest : Str) (d : Decision) (reasons : List Str)
      (r : Receipt) (a : AuthorizationResponse) (h : GatewayService K)
      → respond_signed sha256 sign encode lower payload jwt_check c g digest
          (record { decision = d; reason_codes = reasons })
          (ok r)
        ≡ (ok a, h)
      → r.token_jti ≡ token_jti d c.fresh
      → (h ≡ g)
        × (a.receipt ≡ envelope_dict r)
        × (a.receipt_hash ≡ r.receipt_hash)
        × (a.action_digest ≡ digest)
        × (a.decision ≡ decision_text d)
        × (a.reason_codes ≡ reasons)
        × Bound c g.tenant digest a r
  unfolding respond_signed issued_token decision_text token_jti
  signed_recorded c g digest approve reasons r a h e j = (cc, cc, cc, cc, cc, cc, inl (cc, cc, j))
  signed_recorded c g digest deny reasons r a h e j = (cc, cc, cc, cc, cc, cc, inr (cc, cc, j))

  failed_no_response :
      (c : Call) (g : GatewayService K) (digest : Str) (result : EvaluationResult)
      (x : CanonicalError) (a : AuthorizationResponse) (h : GatewayService K)
      → respond_signed sha256 sign encode lower payload jwt_check c g digest result (err x)
        ≢ (ok a, h)
  unfolding respond_signed
  failed_no_response c g digest result x a h e = cc

  -- The arguments of the receipt of a result.
  abbrev pub request_of : Call → Str → Option Str → EvaluationResult → Str → Request
  request_of c digest registration result version = record {
    request_digest = digest;
    policy_version = version;
    decision = decision_text result.decision;
    reasons = result.reason_codes;
    token_jti = token_jti result.decision c.fresh;
    resource_registration_id = registration;
    delegation_context = c.delegation_context;
  }

  respond-Recorded :
      (c : Call) (g : GatewayService K) (digest : Str) (registration : Option Str)
      (result : EvaluationResult) (version : Str) (a : AuthorizationResponse) (h : GatewayService K)
      → respond sha256 sign encode lower payload jwt_check c g digest registration result version
        ≡ (ok a, h)
      → Recorded c digest g a h
  unfolding respond
  respond-Recorded c g digest registration result version a h e =
      let q = request_of c digest registration result version in
      let s = sign_decision sha256 sign c.ts q g.receipt_chain in
      elim (Result-cases s.0) [
        | inr (x, failed) ↦ absurd (
            failed_no_response c (record g { receipt_chain = s.1 }) digest result x a h
              (rw failed at e))
        | inl (r, ok_r) ↦
            let whole : s ≡ (ok r, s.1) =
              ap (λ (x : Result CanonicalError Receipt). (x, s.1)) ok_r in
            let (b, canon, f, p) =
              sign_decision-ok sha256 sign c.ts q g.receipt_chain s.1 r whole in
            let jti : r.token_jti ≡ token_jti result.decision c.fresh =
              ap (λ (x : Receipt). x.token_jti) f in
            let (same, rec, hash, dig, dec, reasons, bound) =
              signed_recorded c (record g { receipt_chain = s.1 }) digest result.decision
                result.reason_codes r a h (rw ok_r at e) jti in
            (
              r,
              ap (λ (x : GatewayService K). x.receipt_chain.receipts) same
                  ∙ ap (λ (x : ReceiptChain). x.receipts) p,
              rec,
              hash,
              dig,
              ap (λ (x : Receipt). x.request_digest) f,
              ap (λ (x : Receipt). x.decision) f ∙ sym dec,
              ap (λ (x : Receipt). x.reasons) f ∙ sym reasons,
              bound,
            )
      ]

  conclude-Recorded :
      (c : Call) (g : GatewayService K) (digest : Str) (registration : Option Str)
      (result : EvaluationResult) (a : AuthorizationResponse) (h : GatewayService K)
      → conclude sha256 sign encode lower payload jwt_check c g digest registration result
        ≡ (ok a, h)
      → Recorded c digest g a h
  unfolding conclude
  conclude-Recorded c g digest registration result a h e =
      elim (Result-cases (policy_hash sha256 g.policy)) [
        | inr (x, failed) ↦ cc (rw (failed, conclude) at e)
        | inl (version, v) ↦
            respond-Recorded c g digest registration result version a h (rw (v, conclude) at e)
      ]

  decide-Recorded :
      (c : Call) (g : GatewayService K) (digest : Str) (a : AuthorizationResponse)
      (h : GatewayService K)
      → decide sha256 sign encode lower payload jwt_check c g digest ≡ (ok a, h)
      → Recorded c digest g a h
  unfolding decide
  decide-Recorded c g digest a h e =
      let active = is_registered_and_active c.resource c.now g.resource_registry in
      let registration = registration_id active c.resource in
      let (result, counters) =
        evaluate lower g.policy c.agent_id c.action c.resource false c.now g.counters in
      elim (Bool-cases (refused_unregistered g.policy.require_resource_registration registration)) [
        | inl refused ↦ conclude-Recorded c g digest none unregistered a h (rw refused at e)
        | inr admitted ↦
            conclude-Recorded c (record g { counters = counters }) digest registration result a h
              (rw admitted at e)
      ]

  -- A call that ran to the decision had an accepted proof.
  proceed-Recorded :
      (c : Call) (g : GatewayService K) (digest : Str) (m : Result ProofError (RegisteredAgent K))
      (a : AuthorizationResponse) (h : GatewayService K)
      → proceed sha256 sign encode lower payload jwt_check c g digest m ≡ (ok a, h)
      → ((agent : RegisteredAgent K) × (m ≡ ok agent)) × Recorded c digest g a h
  unfolding proceed
  proceed-Recorded c g digest (err x) a h e = cc
  proceed-Recorded c g digest (ok agent) a h e = ((agent, refl), decide-Recorded c g digest a h e)

  digest-Recorded :
      (c : Call) (g : GatewayService K) (m : Result CanonicalError Str) (a : AuthorizationResponse)
      (h : GatewayService K)
      → authorize_digest sha256 sign encode lower payload jwt_check c g m ≡ (ok a, h)
      → (digest : Str) × (m ≡ ok digest)
        × ((agent : RegisteredAgent K) × ((prove sha256 sign encode lower payload jwt_check c g
                digest).0
              ≡ ok agent))
        × Recorded c digest g a h
  unfolding authorize_digest
  digest-Recorded c g (err x) a h e = cc
  digest-Recorded c g (ok digest) a h e =
      let (verified, cache) = prove sha256 sign encode lower payload jwt_check c g digest in
      let (proof, recorded) =
        proceed-Recorded c (record g { proof_jti_cache = cache }) digest verified a h e in
      (digest, refl, proof, recorded)

  -- Every response of `authorize` comes after a proof that was accepted for the digest of the action,
  -- and reports the one receipt that the call appended: its hash, its digest, its decision and its
  -- reasons. An approval carries the token whose payload names that digest and the hash of that
  -- receipt, and whose id the receipt names; a denial carries no token and its receipt names none.
  pub response-Recorded :
      (c : Call) (g : GatewayService K) (a : AuthorizationResponse) (h : GatewayService K)
      → authorize sha256 sign encode lower payload jwt_check c g ≡ (ok a, h)
      → (digest : Str) × (compute_action_digest sha256 c.agent_id c.action c.resource c.parameters
          ≡ ok digest)
        × ((agent : RegisteredAgent K) × ((prove sha256 sign encode lower payload jwt_check c g
                digest).0
              ≡ ok agent))
        × Recorded c digest g a h
  unfolding authorize
  response-Recorded c g a h e = elim (Bool-cases (is_empty c.agent_proof)) [
    | inl missing ↦ cc (rw missing at e)
    | inr given ↦
        digest-Recorded c g
          (compute_action_digest sha256 c.agent_id c.action c.resource c.parameters) a h
          (rw given at e)
  ]
