-- ===== src/Registration/Proved.antt =====
-- What a registration of gateway/api.py has proved.
use agent_authorization_gate.Canonical.{Fields, CanonicalError}
use agent_authorization_gate.Identity.{
  Challenge, RegistrationChallengeCache, challenge_key, gc, consume, consume_entry, register,
}
use agent_authorization_gate.Identity.Registry.{lookup_same, erased_same}
use agent_authorization_gate.Liveness.{ChallengeResult}
use agent_authorization_gate.Registration.{
  RegistrationProof, padded, build_registration_message, parse_jwk, parsed_key, check_possession,
  check_proof_fields, proof_fields, verify_registration_proof, out_of_time, RegistrationFailure,
  JwkError,
}
use agent_authorization_gate.Registration.Routes.{
  RegistrationService, AgentRegisterRequest, Registered, enroll, register_agent,
}
use agent_authorization_gate.Base.{
  Str, Option, ℕ, Bytes, ◌≡◌, Bool, some, ok, ◌≤◌, Option-cases, Result, none, inl, inr, true, err,
  arith, Result-cases, str_eq_iff, refl, sym, false, Bool-cases, ◌∙◌, ap,
}
use agent_authorization_gate.Base.Dict.{lookup}
use agent_authorization_gate.Base.Int.{ℤ}

-- A challenge that `consume` accepts stands in the cache, with the id and in time, and then not any more.
abbrev Consumed : Str → Str → ℕ → RegistrationChallengeCache → RegistrationChallengeCache → Type 0
Consumed key challenge_id now c c' =
    (ch : Challenge) × (lookup key (gc now c).challenges ≡ some ch)
    × (ch.challenge_id ≡ challenge_id)
    × (now ≤ ch.expires_at)
    × (lookup key c'.challenges ≡ none)

entry-Consumed :
    (key challenge_id : Str) (now : ℕ) (o : Option Challenge) (swept : RegistrationChallengeCache)
    → (consume_entry key challenge_id now o swept).0 ≡ ok tt
    → (ch : Challenge) × (o ≡ some ch)
      × (ch.challenge_id ≡ challenge_id)
      × (now ≤ ch.expires_at)
      × (lookup key (consume_entry key challenge_id now o swept).1.challenges ≡ none)
unfolding consume_entry
entry-Consumed key challenge_id now none swept h = absurd (ground arith)
entry-Consumed key challenge_id now (some ch) swept h =
    let same = str_eq_iff ch.challenge_id challenge_id in
    let gone = erased_same key swept.challenges in
    (ch, refl, ground (arith, same), ground arith, ground (arith, gone))

consume-Consumed :
    (tenant agent_id nonce challenge_id : Str) (now : ℕ) (c : RegistrationChallengeCache)
    → (consume tenant agent_id nonce challenge_id now c).0 ≡ ok tt
    → Consumed
        (challenge_key tenant agent_id nonce)
        challenge_id
        now
        c
        (consume tenant agent_id nonce challenge_id now c).1
unfolding consume
consume-Consumed tenant agent_id nonce challenge_id now c h =
    let key = challenge_key tenant agent_id nonce in
    entry-Consumed key challenge_id now (lookup key (gc now c).challenges) (gc now c) h

module _ (b64decode : Str → Option Bytes) (sha256 : Bytes → Bytes)
    (ed_check : Bytes → Bytes → Bytes → Bool) where
  -- The key of the JWK accepts the signature of the message.
  abbrev pub Possessed : Fields → Str → Result CanonicalError Bytes → Type 0
  Possessed jwk signature message =
      (m sig_bytes key : Bytes) × (kid : Str) × (message ≡ ok m)
      × (b64decode (padded signature) ≡ some sig_bytes)
      × (parse_jwk b64decode sha256 jwk ≡ ok (key, kid))
      × (ed_check key sig_bytes m ≡ true)

  check_possession-Possessed :
      (jwk : Fields) (signature : Str) (message : Result CanonicalError Bytes)
      → check_possession b64decode sha256 ed_check jwk signature message ≡ ok tt
      → Possessed jwk signature message
  unfolding check_possession parsed_key
  check_possession-Possessed jwk signature message h =
      elim (Option-cases (b64decode (padded signature))) [
        | inl e ↦ absurd (ground arith)
        | inr (sig_bytes, e) ↦ elim (Result-cases (parse_jwk b64decode sha256 jwk)) [
          | inl ((key, kid), k) ↦ elim (Result-cases message) [
            | inl (m, n) ↦
                let checked : ed_check key sig_bytes m ≡ true = ground arith in
                (m, sig_bytes, key, kid, n, e, k, checked)
            | inr (x, n) ↦ absurd (ground arith)
          ]
          | inr (x, k) ↦ absurd (ground arith)
        ]
      ]

  -- The proof names a challenge of this agent that stands in the cache in time, and its signature shows
  -- that the agent holds the key; then the challenge is gone.
  abbrev pub Proves :
      Fields
      → Option RegistrationProof
      → Str
      → Str
      → ℕ
      → RegistrationChallengeCache
      → RegistrationChallengeCache
      → Type 0
  Proves jwk proof tenant agent_id now c c' =
      (p : RegistrationProof) × (nonce challenge_id signature : Str) × (iat : ℤ) × (proof ≡ some p)
      × (proof_fields b64decode sha256 ed_check p ≡ some (nonce, challenge_id, signature, iat))
      × (out_of_time now iat ≡ false)
      × Consumed (challenge_key tenant agent_id nonce) challenge_id now c c'
      × Possessed jwk signature
          (build_registration_message tenant agent_id jwk nonce challenge_id iat)

  fields-Proved :
      (jwk : Fields) (nonce challenge_id signature tenant agent_id : Str) (iat : ℤ) (now : ℕ)
      (c : RegistrationChallengeCache)
      → let r =
          check_proof_fields b64decode sha256 ed_check jwk nonce challenge_id signature iat tenant
            agent_id now c in
        r.0 ≡ ok tt
        → (out_of_time now iat ≡ false)
          × Consumed (challenge_key tenant agent_id nonce) challenge_id now c r.1
          × Possessed jwk signature
              (build_registration_message tenant agent_id jwk nonce challenge_id iat)
  unfolding check_proof_fields
  fields-Proved jwk nonce challenge_id signature tenant agent_id iat now c h =
      elim (Bool-cases (out_of_time now iat)) [
        | inl late ↦ absurd (ground arith)
        | inr timely ↦ elim (Result-cases (consume tenant agent_id nonce challenge_id now c).0) [
          | inl (u, e) ↦
              let consumed = consume-Consumed tenant agent_id nonce challenge_id now c e in
              let possessed =
                check_possession-Possessed jwk signature
                  (build_registration_message tenant agent_id jwk nonce challenge_id iat)
                  (ground arith) in
              rw (timely, e) (refl, consumed, possessed)
          | inr (x, e) ↦ absurd (ground arith)
        ]
      ]

  verify-Proves :
      (jwk : Fields) (proof : Option RegistrationProof) (tenant agent_id : Str) (now : ℕ)
      (c : RegistrationChallengeCache)
      → let r =
          verify_registration_proof b64decode sha256 ed_check jwk proof tenant agent_id now c in
        r.0 ≡ ok tt → Proves jwk proof tenant agent_id now c r.1
  unfolding verify_registration_proof
  verify-Proves jwk none tenant agent_id now c h = absurd (ground arith)
  verify-Proves jwk (some p) tenant agent_id now c h =
      elim (Option-cases (proof_fields b64decode sha256 ed_check p)) [
        | inl e ↦ absurd (ground arith)
        | inr ((nonce, challenge_id, signature, iat), e) ↦
            let accepted = rw (verify_registration_proof, e) at h in
            let (timely, consumed, possessed) =
              fields-Proved jwk nonce challenge_id signature tenant agent_id iat now c accepted in
            rw (verify_registration_proof, e)
              (p, nonce, challenge_id, signature, iat, refl, e, timely, consumed, possessed)
      ]

  module _ (answer : ChallengeResult) (now : ℕ) (q : AgentRegisterRequest)
      (s : RegistrationService) where
    abbrev outcome : Result {0, 0} RegistrationFailure Unit × RegistrationChallengeCache
    outcome =
        verify_registration_proof b64decode sha256 ed_check q.public_key q.proof s.tenant q.agent_id
          now s.challenge_cache

    accepted_step :
        (key : Bytes) (kid : Str)
        → outcome.0 ≡ ok tt
        → parse_jwk b64decode sha256 q.public_key ≡ ok (key, kid)
        → register_agent answer now b64decode sha256 ed_check q s
          ≡ enroll answer now q (ok (key, kid)) (record s { challenge_cache = outcome.1 })
    unfolding register_agent
    accepted_step key kid e k = rw (register_agent, e, k) refl

    refused_key :
        (r : Registered) (x : JwkError)
        → outcome.0 ≡ ok tt
        → parse_jwk b64decode sha256 q.public_key ≡ err x
        → ¬ ((register_agent answer now b64decode sha256 ed_check q s).0 ≡ ok r)
    unfolding register_agent enroll
    refused_key r x e k h = ground arith

    refused_proof :
        (r : Registered) (x : RegistrationFailure)
        → outcome.0 ≡ err x
        → ¬ ((register_agent answer now b64decode sha256 ed_check q s).0 ≡ ok r)
    unfolding register_agent enroll
    refused_proof r x e h = ground arith

  pub registration_proved :
      (answer : ChallengeResult) (now : ℕ) (q : AgentRegisterRequest) (s : RegistrationService)
      (r : Registered)
      → (register_agent answer now b64decode sha256 ed_check q s).0 ≡ ok r
      → let s' = (register_agent answer now b64decode sha256 ed_check q s).1 in
        Proves q.public_key q.proof s.tenant q.agent_id now s.challenge_cache s'.challenge_cache
        × ((key : Bytes) × (parse_jwk b64decode sha256 q.public_key ≡ ok (key, r.kid))
            × (lookup q.agent_id s'.registry.agents
                ≡ some (record {
                  agent_id = q.agent_id;
                  public_key = key;
                  kid = r.kid;
                  live_challenge_url = q.live_challenge_url;
                })))
  unfolding enroll register
  registration_proved answer now q s r h =
      elim (Result-cases
        (verify_registration_proof b64decode sha256 ed_check q.public_key q.proof s.tenant
          q.agent_id now s.challenge_cache).0) [
            | inl (u, e) ↦ elim (Result-cases (parse_jwk b64decode sha256 q.public_key)) [
              | inl ((key, kid), k) ↦
                  let proves =
                    verify-Proves q.public_key q.proof s.tenant q.agent_id now s.challenge_cache
                      e in
                  let step = accepted_step answer now q s key kid e k in
                  let same : kid ≡ r.kid = (let returned = rw step at h in cc) in
                  rw step (
                    proves,
                    (
                      key,
                      k ∙ ap (λ l. ok (key, l)) same,
                      rw (sym same) (lookup_same q.agent_id _ s.registry.agents),
                    ),
                  )
              | inr (x, k) ↦ absurd (refused_key answer now q s r x e k h)
            ]
            | inr (x, e) ↦ absurd (refused_proof answer now q s r x e h)
          ]
