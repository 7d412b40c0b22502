-- ===== src/Identity/Replay.antt =====
-- An agent's proof is accepted once by gateway/identity.py.
use agent_authorization_gate.Base.{
  ℕ, ◌+◌, ◌≤◌, ◌≡◌, ◌≢◌, refl, sym, ap, ◌∙◌, Bool-cases, ◌⊎◌, inl, inr, Option, some, List, [], ◌∷◌,
  Result, ok, err, >>=-ok, Str, str_eq, arith, ltb, Option-cases, subst,
}
use agent_authorization_gate.Base.Dict.{Dict, lookup}
use agent_authorization_gate.Identity.{RegisteredAgent, AgentRegistry}
use agent_authorization_gate.Identity.Proofs.{
  Claims, JwtCheck, accepted, ProofError, Expected, check_claims, check_proof, use_jti,
  verify_checked, verify_agent_proof, invalid_signature, check_key, invalid_token,
}
use agent_authorization_gate.Identity.Spent.{
  Spent, bound-contains, use_jti-Spent, use_jti-spends, use_jti-replay,
}

module _ {ℓ} {K : Type ℓ} (payload : Str → Option Claims) (jwt_check : Str → K → ℕ → JwtCheck) where
  JwtCheck-cases : (j : JwtCheck) → (j ≡ accepted) ⊎ ((j ≡ invalid_signature) ⊎ (j ≡ invalid_token))
  JwtCheck-cases accepted = inl refl
  JwtCheck-cases invalid_signature = inr (inl refl)
  JwtCheck-cases invalid_token = inr (inr refl)

  check_claims-unexpired :
      (c : Claims) (e : Expected) (now : ℕ) (u : Unit)
      → check_claims c e now ≡ ok u
      → now ≤ c.iat + 30
  unfolding check_claims
  check_claims-unexpired c e now u h = elim (Bool-cases (ltb (c.iat + 30) now)) [
    | inl late ↦ cc (rw late at h)
    | inr timely ↦ ground arith
  ]

  accepted_checks :
      (proof : Str) (e : Expected) (now : ℕ) (a : RegisteredAgent K) (c d : Claims)
      (g : RegisteredAgent K)
      → payload proof ≡ some d
      → check_key payload jwt_check proof g d e now ≡ ok (a, c)
      → (payload proof ≡ some c)
        × (jwt_check proof a.public_key now ≡ accepted)
        × (now ≤ c.iat + 30)
  unfolding check_key
  accepted_checks proof e now a c d g p h =
      elim (JwtCheck-cases (jwt_check proof g.public_key now)) [
        | inr (inl forged) ↦ cc (rw (forged, check_key) at h)
        | inr (inr bad) ↦ cc (rw (bad, check_key) at h)
        | inl signed ↦
            let (u, k, r) = >>=-ok (check_claims d e now) _ (rw (signed, check_key) at h) in
            let timely = check_claims-unexpired d e now u k in
            let same : g ≡ a = cc r in
            let claims : d ≡ c = cc r in
            (
              rw claims at p,
              ap (λ (x : RegisteredAgent K). jwt_check proof x.public_key now) (sym same) ∙ signed,
              subst (λ (x : Claims). now ≤ x.iat + 30) claims timely,
            )
      ]

  -- What a proof that passed the checks says.
  check_proof-ok :
      (proof : Str) (registry : AgentRegistry K) (e : Expected) (now : ℕ) (a : RegisteredAgent K)
      (c : Claims)
      → check_proof payload jwt_check proof registry e now ≡ ok (a, c)
      → (payload proof ≡ some c)
        × (jwt_check proof a.public_key now ≡ accepted)
        × (now ≤ c.iat + 30)
  unfolding check_proof
  check_proof-ok proof registry e now a c h = elim (Option-cases (payload proof)) [
    | inl malformed ↦ cc (rw (malformed, check_proof) at h)
    | inr (d, p) ↦
        let h1 = rw (p, check_proof) at h in
        elim (Bool-cases (str_eq d.sub e.agent_id)) [
          | inr other ↦ cc (rw other at h1)
          | inl same ↦
              let h2 = rw same at h1 in
              elim (Option-cases (lookup d.sub registry.agents)) [
                | inl unknown ↦ cc (rw unknown at h2)
                | inr (g, l) ↦ accepted_checks proof e now a c d g p (rw l at h2)
              ]
        ]
  ]

  abbrev verify :
      Str → AgentRegistry K → Expected → ℕ → Dict ℕ → Result ProofError (RegisteredAgent K) × Dict ℕ
  verify = verify_agent_proof payload jwt_check

  verify_checked-Spent :
      (c : Claims) (before now : ℕ) (cache : Dict ℕ)
      (m : Result ProofError (RegisteredAgent K × Claims))
      → before ≤ now
      → Spent c before cache
      → Spent c now (verify_checked payload jwt_check now cache m).1
  unfolding verify_checked
  verify_checked-Spent c before now cache (err e) le (inl s) = inl s
  verify_checked-Spent c before now cache (err e) le (inr s) = inr (omega arith)
  verify_checked-Spent c before now cache (ok (agent, d)) le s =
      use_jti-Spent agent d.jti c before now cache le s

  -- A call of `verify_agent_proof`.
  pub record Call : Type ℓ where
    pub proof : Str
    pub registry : AgentRegistry K
    pub expected : Expected
    pub at : ℕ

  -- The cache after these calls.
  abbrev pub cache_after : List Call → Dict ℕ → Dict ℕ
  cache_after [] cache = cache
  cache_after (call ∷ calls) cache =
      cache_after calls (verify call.proof call.registry call.expected call.at cache).1

  -- The clock does not run backwards from `from` over these calls to `to`.
  abbrev pub Ordered : ℕ → List Call → ℕ → Type 0
  Ordered from [] to = from ≤ to
  Ordered from (call ∷ calls) to = (from ≤ call.at) × Ordered call.at calls to

  one_call :
      (c : Claims) (before : ℕ) (call : Call) (cache : Dict ℕ)
      → before ≤ call.at
      → Spent c before cache
      → Spent c call.at (verify call.proof call.registry call.expected call.at cache).1
  unfolding verify_agent_proof
  one_call c before call cache le s =
      verify_checked-Spent c before call.at cache
        (check_proof payload jwt_check call.proof call.registry call.expected call.at) le s

  checked_use :
      (now : ℕ) (cache cache' : Dict ℕ) (a : RegisteredAgent K)
      (m : Result ProofError (RegisteredAgent K × Claims))
      → verify_checked payload jwt_check now cache m ≡ (ok a, cache')
      → (g : RegisteredAgent K) × (c : Claims) × (m ≡ ok (g, c))
        × (use_jti g c.jti now cache ≡ (ok a, cache'))
  unfolding verify_checked
  checked_use now cache cache' a (err x) h = cc
  checked_use now cache cache' a (ok (g, c)) h = (g, c, refl, h)

  first_use :
      (matures : (p : Str) (k : K) (t : ℕ) (c : Claims)
        → jwt_check p k t ≡ accepted
        → payload p ≡ some c
        → c.iat ≤ t)
      (proof : Str) (registry : AgentRegistry K) (e : Expected) (now : ℕ) (cache cache' : Dict ℕ)
      (a : RegisteredAgent K)
      → verify proof registry e now cache ≡ (ok a, cache')
      → (c : Claims) × (payload proof ≡ some c) × Spent c now cache'
  unfolding verify_agent_proof
  first_use matures proof registry e now cache cache' a h =
      let (g, c, m, u) =
        checked_use now cache cache' a (check_proof payload jwt_check proof registry e now) h in
      let (p, k, timely) = check_proof-ok proof registry e now g c m in
      (c, p, use_jti-spends g a c now cache cache' (matures proof g.public_key now c k p) u)

  calls-Spent :
      (c : Claims) (from to : ℕ) (calls : List Call) (cache : Dict ℕ)
      → Ordered from calls to
      → Spent c from cache
      → Spent c to (cache_after calls cache)
  calls-Spent c from to [] cache o (inl s) = inl s
  calls-Spent c from to [] cache o (inr s) = inr (omega arith)
  calls-Spent c from to (call ∷ calls) cache (o, os) s =
      calls-Spent c call.at to calls (verify call.proof call.registry call.expected call.at cache).1
        os (one_call c from call cache o s)

  rejected :
      (c : Claims) (proof : Str) (registry : AgentRegistry K) (e : Expected) (now : ℕ)
      (cache : Dict ℕ) (a : RegisteredAgent K)
      → payload proof ≡ some c
      → Spent c now cache
      → (verify proof registry e now cache).0 ≢ ok a
  unfolding verify_agent_proof
  rejected c proof registry e now cache a p s h =
      let full : verify proof registry e now cache ≡ (ok a, (verify proof registry e now cache).1) =
        ap
          (λ (x : Result ProofError (RegisteredAgent K)).
            (x, (verify proof registry e now cache).1))
          h in
      let (g, d, m, u) =
        checked_use now cache (verify proof registry e now cache).1 a
          (check_proof payload jwt_check proof registry e now) full in
      let (q, k, timely) = check_proof-ok proof registry e now g d m in
      let same : d ≡ c = cc (p, q) in
      let iat : d.iat ≡ c.iat = ap (λ (x : Claims). x.iat) same in
      let jti : d.jti ≡ c.jti = ap (λ (x : Claims). x.jti) same in
      elim s [
        | inr late ↦ omega arith
        | inl (v, l, old) ↦
            use_jti-replay g a d.jti now cache (verify proof registry e now cache).1
              (bound-contains d.jti v cache (rw (sym jti) at l)) u
      ]

  -- After a proof is accepted, no later call accepts it again, whatever calls come in between and
  -- whatever they and it expect, if the clock does not run backwards and the JWT library accepts no
  -- proof before its `iat`.
  pub proof_accepted_once :
      (matures : (p : Str) (k : K) (t : ℕ) (c : Claims)
        → jwt_check p k t ≡ accepted
        → payload p ≡ some c
        → c.iat ≤ t)
      (proof : Str) (registry registry' : AgentRegistry K) (e e' : Expected) (now later : ℕ)
      (cache cache' : Dict ℕ) (a a' : RegisteredAgent K) (calls : List Call)
      → verify proof registry e now cache ≡ (ok a, cache')
      → Ordered now calls later
      → (verify proof registry' e' later (cache_after calls cache')).0 ≢ ok a'
  proof_accepted_once matures proof registry registry' e e' now later cache cache' a a' calls h o =
      let (c, p, s) = first_use matures proof registry e now cache cache' a h in
      rejected c proof registry' e' later (cache_after calls cache') a' p
        (calls-Spent c now later calls cache' o s)
