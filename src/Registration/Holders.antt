-- ===== src/Registration/Holders.antt =====
-- Who is registered after any calls of the registration routes of gateway/api.py.
use agent_authorization_gate.Base.{
  Bool, Option, some, [], ok, err, Str, Bytes, ◌≡◌, ◌⊎◌, ℕ, arith, true, str_eq, Bool-cases, false,
  inr, inl, sym, ◌∙◌, Result-cases, ap, str_eq_iff, Result, refl, subst,
}
use agent_authorization_gate.Base.Dict.{lookup, lookup-insert, lookup-erase}
use agent_authorization_gate.Canonical.{Fields}
use agent_authorization_gate.Identity.{RegisteredAgent, register, revoke}
use agent_authorization_gate.Liveness.{ChallengeResult}
use agent_authorization_gate.Registration.{
  padded, parse_jwk, build_registration_message, verify_registration_proof, JwkError,
}
use agent_authorization_gate.Registration.Routes.{
  RegistrationService, AgentRegisterRequest, register_challenge, register_agent, delete_agent,
  enroll, RouteError,
}
use agent_authorization_gate.Registration.Proved.{registration_proved}
use agent_authorization_gate.Base.Int.{ℤ}

challenge_same :
    (client : Option Str) (agent_id nonce challenge_id : Str) (now : ℕ) (s : RegistrationService)
    → ((register_challenge client agent_id nonce challenge_id now s).1.registry ≡ s.registry)
      × ((register_challenge client agent_id nonce challenge_id now s).1.tenant ≡ s.tenant)
unfolding register_challenge
challenge_same client agent_id nonce challenge_id now s = ground arith

deletion_found :
    (agent_id other : Str) (a : RegisteredAgent Bytes) (s : RegistrationService)
    → lookup other (delete_agent agent_id s).1.registry.agents ≡ some a
    → lookup other s.registry.agents ≡ some a
unfolding delete_agent revoke
deletion_found agent_id other a s h =
    let erased = lookup-erase agent_id other s.registry.agents in ground (arith, erased)

deletion_tenant :
    (agent_id : Str) (s : RegistrationService) → (delete_agent agent_id s).1.tenant ≡ s.tenant
unfolding delete_agent
deletion_tenant agent_id s = ground arith

module _ (b64decode : Str → Option Bytes) (sha256 : Bytes → Bytes)
    (ed_check : Bytes → Bytes → Bytes → Bool) where
  -- The key accepts a signature of a message that names the tenant, the agent id, and a JWK of this key
  -- and `kid`.
  abbrev pub KeyProved : Str → Str → RegisteredAgent Bytes → Type 0
  KeyProved tenant agent_id a =
      (jwk : Fields) × (nonce challenge_id signature : Str) × (iat : ℤ) × (m sig_bytes : Bytes)
      × (build_registration_message tenant agent_id jwk nonce challenge_id iat ≡ ok m)
      × (b64decode (padded signature) ≡ some sig_bytes)
      × (parse_jwk b64decode sha256 jwk ≡ ok (a.public_key, a.kid))
      × (ed_check a.public_key sig_bytes m ≡ true)

  -- The states of a tenant's service after any calls of the routes, from a registry without agents.
  pub data Reached (tenant : Str) : RegistrationService → Type 0 where
    opened :
        {s : RegistrationService} → s.tenant ≡ tenant → s.registry.agents ≡ [] → Reached tenant s
    challenge :
        {s : RegistrationService} (client : Option Str) (agent_id nonce challenge_id : Str)
        (now : ℕ)
        → Reached tenant s
        → Reached tenant (register_challenge client agent_id nonce challenge_id now s).1
    registration :
        {s : RegistrationService} (answer : ChallengeResult) (now : ℕ) (q : AgentRegisterRequest)
        → Reached tenant s
        → Reached tenant (register_agent answer now b64decode sha256 ed_check q s).1
    deletion :
        {s : RegistrationService} (agent_id : Str)
        → Reached tenant s
        → Reached tenant (delete_agent agent_id s).1

  enroll_others :
      (answer : ChallengeResult) (now : ℕ) (q : AgentRegisterRequest) (s : RegistrationService)
      (other : Str) (parsed : Result JwkError (Bytes × Str))
      → str_eq q.agent_id other ≡ false
      → lookup other (enroll answer now q parsed s).1.registry.agents
        ≡ lookup other s.registry.agents
  unfolding enroll register
  enroll_others answer now q s other (err x) apart = refl
  enroll_others answer now q s other (ok (key, kid)) apart =
      lookup-insert q.agent_id other _ s.registry.agents ∙ rw apart refl

  registration_others :
      (answer : ChallengeResult) (now : ℕ) (q : AgentRegisterRequest) (s : RegistrationService)
      (other : Str)
      → str_eq q.agent_id other ≡ false
      → lookup other (register_agent answer now b64decode sha256 ed_check q s).1.registry.agents
        ≡ lookup other s.registry.agents
  unfolding register_agent
  registration_others answer now q s other apart =
      let outcome =
        verify_registration_proof b64decode sha256 ed_check q.public_key q.proof s.tenant q.agent_id
          now s.challenge_cache in
      elim (Result-cases outcome.0) [
        | inl (u, e) ↦
            rw (register_agent, e)
              (enroll_others answer now q (record s { challenge_cache = outcome.1 }) other
                (parse_jwk b64decode sha256 q.public_key) apart)
        | inr (x, e) ↦ rw (register_agent, e) refl
      ]

  registration_refused :
      (answer : ChallengeResult) (now : ℕ) (q : AgentRegisterRequest) (s : RegistrationService)
      (x : RouteError)
      → (register_agent answer now b64decode sha256 ed_check q s).0 ≡ err x
      → (register_agent answer now b64decode sha256 ed_check q s).1.registry ≡ s.registry
  unfolding register_agent enroll
  registration_refused answer now q s x h = ground arith

  registration_found :
      (answer : ChallengeResult) (now : ℕ) (q : AgentRegisterRequest) (s : RegistrationService)
      (other : Str) (a : RegisteredAgent Bytes)
      → lookup other (register_agent answer now b64decode sha256 ed_check q s).1.registry.agents
        ≡ some a
      → (lookup other s.registry.agents ≡ some a) ⊎ KeyProved s.tenant other a
  registration_found answer now q s other a h = elim (Bool-cases (str_eq q.agent_id other)) [
    | inr apart ↦ inl (sym (registration_others answer now q s other apart) ∙ h)
    | inl same ↦ elim (Result-cases (register_agent answer now b64decode sha256 ed_check q s).0) [
      | inr (x, e) ↦
          let registry = registration_refused answer now q s x e in
          inl (sym (ap (λ g. lookup other g.agents) registry) ∙ h)
      | inl (r, e) ↦
          let (proves, (key, parsed, found)) =
            registration_proved b64decode sha256 ed_check answer now q s r e in
          let (p, nonce, challenge_id, signature, iat, _, _, _, _, possessed) = proves in
          let (m, sig_bytes, key', kid', message, decoded, parsed', checked) = possessed in
          let id : q.agent_id ≡ other = (str_eq_iff q.agent_id other).0 same in
          let there : some a
              ≡ some (record {
                agent_id = q.agent_id;
                public_key = key;
                kid = r.kid;
                live_challenge_url = q.live_challenge_url;
              }) =
            sym h
            ∙ sym (
                ap
                  (λ k.
                    lookup k
                      (register_agent answer now b64decode sha256 ed_check q s).1.registry.agents)
                  id)
            ∙ found in
          let public : a.public_key ≡ key = cc in
          let kid : a.kid ≡ r.kid = cc in
          let named =
            ap (λ k. build_registration_message s.tenant k q.public_key nonce challenge_id iat)
              id in
          let keys : key' ≡ key = cc in
          inr (
            q.public_key,
            nonce,
            challenge_id,
            signature,
            iat,
            m,
            sig_bytes,
            sym named ∙ message,
            decoded,
            rw (public, kid) parsed,
            subst (λ k. ed_check k sig_bytes m ≡ true) (keys ∙ sym public) checked,
          )
    ]
  ]

  registration_tenant :
      (answer : ChallengeResult) (now : ℕ) (q : AgentRegisterRequest) (s : RegistrationService)
      → (register_agent answer now b64decode sha256 ed_check q s).1.tenant ≡ s.tenant
  unfolding register_agent enroll
  registration_tenant answer now q s = ground arith

  Reached-tenant : {tenant : Str} {s : RegistrationService} → Reached tenant s → s.tenant ≡ tenant
  Reached-tenant (opened t none_yet) = t
  Reached-tenant (challenge {s} client id nonce challenge_id now reached) =
      (challenge_same client id nonce challenge_id now s).1 ∙ Reached-tenant reached
  Reached-tenant (registration {s} answer now q reached) =
      registration_tenant answer now q s ∙ Reached-tenant reached
  Reached-tenant (deletion {s} id reached) = deletion_tenant id s ∙ Reached-tenant reached

  -- Start from a registry without agents. After any calls of the routes that issue a challenge,
  -- register an agent and delete it, every agent that is registered has proved that it holds its key:
  -- the key accepts a signature of a message that names the tenant, the agent's id, and a JWK of this
  -- key and `kid`.
  pub holders_proved :
      {tenant : Str} {s : RegistrationService} (agent_id : Str) (a : RegisteredAgent Bytes)
      → Reached tenant s
      → lookup agent_id s.registry.agents ≡ some a
      → KeyProved tenant agent_id a
  unfolding lookup
  holders_proved agent_id a (opened t none_yet) h = absurd (ground (arith, none_yet, h))
  holders_proved agent_id a (challenge {s} client id nonce challenge_id now reached) h =
      let same = (challenge_same client id nonce challenge_id now s).0 in
      holders_proved agent_id a reached (sym (ap (λ g. lookup agent_id g.agents) same) ∙ h)
  holders_proved agent_id a (registration {s} answer now q reached) h =
      elim (registration_found answer now q s agent_id a h) [
        | inl before ↦ holders_proved agent_id a reached before
        | inr proved ↦ subst (λ tenant. KeyProved tenant agent_id a) (Reached-tenant reached) proved
      ]
  holders_proved agent_id a (deletion {s} id reached) h =
      holders_proved agent_id a reached (deletion_found id agent_id a s h)
