-- ===== src/Gateway/Errors.antt =====
-- What a call of `authorize` of gateway/gateway_service.py leaves behind when it raises.
use agent_authorization_gate.Base.{
  ℕ, ◌≡◌, refl, ap, ◌∙◌, Bool-cases, ◌⊎◌, inl, inr, Option, Result, ok, err, Result-cases, Str,
  Bytes, false, none,
}
use agent_authorization_gate.Base.Dict.{Dict}
use agent_authorization_gate.Canonical.{CanonicalError}
use agent_authorization_gate.Policy.{EvaluationResult, evaluate}
use agent_authorization_gate.Policy.Hash.{policy_hash}
use agent_authorization_gate.Resources.{is_registered_and_active}
use agent_authorization_gate.Identity.{RegisteredAgent}
use agent_authorization_gate.Identity.Refused.{verify_agent_proof-refused}
use agent_authorization_gate.Identity.Proofs.{Claims, JwtCheck, ProofError}
use agent_authorization_gate.Receipts.{Receipt, ReceiptChain, sign_decision}
use agent_authorization_gate.Receipts.Issue.{sign_decision-err}
use agent_authorization_gate.Tokens.{Payload, compute_action_digest}
use agent_authorization_gate.Gateway.Outcome.{request_of}
use agent_authorization_gate.Gateway.{
  GatewayService, AuthorizeError, no_proof, not_canonical, bad_proof, Call, respond_signed, respond,
  conclude, decide, proceed, prove, authorize_digest, authorize, is_empty, registration_id,
  refused_unregistered, unregistered,
}

module _ {ℓ} {K : Type ℓ} (sha256 : Bytes → Bytes) (sign : Bytes → Str) (encode : Payload → Str)
    (lower : Str → Str) (payload : Str → Option Claims) (jwt_check : Str → K → ℕ → JwtCheck) where
  -- The error is one of `canonicalize`, and no receipt was appended.
  abbrev pub Uncanonical : GatewayService K → AuthorizeError → GatewayService K → Type 0
  Uncanonical g x h =
      (y : CanonicalError) × (x ≡ not_canonical y)
      × (h.receipt_chain.receipts ≡ g.receipt_chain.receipts)

  signed-Uncanonical :
      (c : Call) (g : GatewayService K) (digest : Str) (result : EvaluationResult)
      (m : Result CanonicalError Receipt) (x : AuthorizeError) (h : GatewayService K)
      → respond_signed sha256 sign encode lower payload jwt_check c g digest result m ≡ (err x, h)
      → (y : CanonicalError) × (m ≡ err y) × (x ≡ not_canonical y) × (h ≡ g)
  unfolding respond_signed
  signed-Uncanonical c g digest result (err y) x h e = (y, refl, cc, cc)
  signed-Uncanonical c g digest result (ok r) x h e = cc

  respond-Uncanonical :
      (c : Call) (g : GatewayService K) (digest : Str) (registration : Option Str)
      (result : EvaluationResult) (version : Str) (x : AuthorizeError) (h : GatewayService K)
      → respond sha256 sign encode lower payload jwt_check c g digest registration result version
        ≡ (err x, h)
      → Uncanonical g x h
  unfolding respond
  respond-Uncanonical c g digest registration result version x h e =
      let q =
        request_of sha256 sign encode lower payload jwt_check c digest registration result
          version in
      let s = sign_decision sha256 sign c.ts q g.receipt_chain in
      let (y, failed, named, same) =
        signed-Uncanonical c (record g { receipt_chain = s.1 }) digest result s.0 x h e in
      let whole : s ≡ (err y, s.1) = ap (λ (m : Result CanonicalError Receipt). (m, s.1)) failed in
      let chain = sign_decision-err sha256 sign c.ts q g.receipt_chain s.1 y whole in
      (
        y,
        named,
        ap (λ (t : GatewayService K). t.receipt_chain.receipts) same
            ∙ ap (λ (t : ReceiptChain). t.receipts) chain,
      )

  conclude-Uncanonical :
      (c : Call) (g : GatewayService K) (digest : Str) (registration : Option Str)
      (result : EvaluationResult) (x : AuthorizeError) (h : GatewayService K)
      → conclude sha256 sign encode lower payload jwt_check c g digest registration result
        ≡ (err x, h)
      → Uncanonical g x h
  unfolding conclude
  conclude-Uncanonical c g digest registration result x h e =
      elim (Result-cases (policy_hash sha256 g.policy)) [
        | inr (y, failed) ↦
            let e' = rw (failed, conclude) at e in
            let same : h ≡ g = cc in
            (y, cc, ap (λ (s : GatewayService K). s.receipt_chain.receipts) same)
        | inl (version, v) ↦
            respond-Uncanonical c g digest registration result version x h (rw (v, conclude) at e)
      ]

  decide-Uncanonical :
      (c : Call) (g : GatewayService K) (digest : Str) (x : AuthorizeError) (h : GatewayService K)
      → decide sha256 sign encode lower payload jwt_check c g digest ≡ (err x, h)
      → Uncanonical g x h
  unfolding decide
  decide-Uncanonical c g digest x h e =
      let active = is_registered_and_active c.resource c.now g.resource_registry in
      let registration = registration_id active c.resource in
      let (result, counters) =
        evaluate lower g.policy c.agent_id c.action c.resource false c.now g.counters in
      elim (Bool-cases (refused_unregistered g.policy.require_resource_registration registration)) [
        | inl refused ↦ conclude-Uncanonical c g digest none unregistered x h (rw refused at e)
        | inr admitted ↦
            conclude-Uncanonical c (record g { counters = counters }) digest registration result x h
              (rw admitted at e)
      ]

  proceed-raised :
      (c : Call) (g : GatewayService K) (digest : Str) (m : Result ProofError (RegisteredAgent K))
      (x : AuthorizeError) (h : GatewayService K)
      → proceed sha256 sign encode lower payload jwt_check c g digest m ≡ (err x, h)
      → ((p : ProofError) × (m ≡ err p) × (x ≡ bad_proof p) × (h ≡ g)) ⊎ Uncanonical g x h
  unfolding proceed
  proceed-raised c g digest (err p) x h e = inl (p, refl, cc, cc)
  proceed-raised c g digest (ok agent) x h e = inr (decide-Uncanonical c g digest x h e)

  -- What `authorize` leaves when it raises.
  abbrev pub Raised : GatewayService K → AuthorizeError → GatewayService K → Type ℓ
  Raised g x h =
      ((x ≡ no_proof) × (h ≡ g))
      ⊎ ((p : ProofError) × (x ≡ bad_proof p) × (h ≡ g))
      ⊎ Uncanonical g x h

  digest-Raised :
      (c : Call) (g : GatewayService K) (m : Result CanonicalError Str) (x : AuthorizeError)
      (h : GatewayService K)
      → authorize_digest sha256 sign encode lower payload jwt_check c g m ≡ (err x, h)
      → Raised g x h
  unfolding authorize_digest prove
  digest-Raised c g (err y) x h e =
      let same : h ≡ g = cc in
      inr (inr (y, cc, ap (λ (s : GatewayService K). s.receipt_chain.receipts) same))
  digest-Raised c g (ok digest) x h e =
      let (verified, cache) = prove sha256 sign encode lower payload jwt_check c g digest in
      elim (proceed-raised c (record g { proof_jti_cache = cache }) digest verified x h e) [
        | inr failed ↦ inr (inr failed)
        | inl (p, refused, named, same) ↦
            let kept : cache ≡ g.proof_jti_cache =
              verify_agent_proof-refused payload jwt_check c.agent_proof g.registry _ c.now
                g.proof_jti_cache cache p
                (ap (λ (m : Result ProofError (RegisteredAgent K)). (m, cache)) refused) in
            inr (inl (p, named, same ∙ ap (λ (j : Dict ℕ). record g { proof_jti_cache = j }) kept))
      ]

  -- A call of `authorize` that raises appends no receipt. If it raises for its proof, which is
  -- missing, or refused (a replay included), then it leaves the whole service as it was: no rate
  -- limit counts it, and no proof is remembered; every other error is one of `canonicalize`.
  pub error-Raised :
      (c : Call) (g : GatewayService K) (x : AuthorizeError) (h : GatewayService K)
      → authorize sha256 sign encode lower payload jwt_check c g ≡ (err x, h)
      → Raised g x h
  unfolding authorize
  error-Raised c g x h e = elim (Bool-cases (is_empty c.agent_proof)) [
    | inl missing ↦ let e' = rw missing at e in inl (cc, cc)
    | inr given ↦
        digest-Raised c g (compute_action_digest sha256 c.agent_id c.action c.resource c.parameters)
          x h (rw given at e)
  ]
