-- ===== src/Tokens/Requests.antt =====
-- A token is accepted once by gateway/middleware.py.
use agent_authorization_gate.Base.{
  ℕ, ◌≤◌, ◌≡◌, refl, sym, ap, ◌∙◌, subst, Bool-cases, ◌⊎◌, inl, inr, List, [], ◌∷◌, Result, ok, err,
  Str, arith, codes, starts_with, drop, Option-cases,
}
use agent_authorization_gate.Base.Dict.{Dict}
use agent_authorization_gate.Tokens.Middleware.{
  TokenClaims, Decoded, claims, expired_signature, invalid_signature, invalid_token, TokenError,
  check_replay, check_scope, fresh_jti, finish, try_keys, verify_decoded, with_keys, verify,
}
use agent_authorization_gate.Tokens.SingleUse.{Spent, use-Spent}

-- An expired `jti` stays so, and a bound one stays bound, while nothing happens.
later_Spent :
    (jti : Str) (exp before now : ℕ) (cache : Dict ℕ)
    → before ≤ now
    → Spent jti exp before cache
    → Spent jti exp now cache
later_Spent jti exp before now cache le (inl s) = inl s
later_Spent jti exp before now cache le (inr late) = inr (omega arith)

replay-Spent :
    (jti : Str) (exp before now : ℕ) (d : TokenClaims) (cache : Dict ℕ)
    → before ≤ now
    → Spent jti exp before cache
    → Spent jti exp now (check_replay d now cache).1
unfolding check_replay
replay-Spent jti exp before now d cache le s = elim (Option-cases (fresh_jti d.jti)) [
  | inl unnamed ↦ rw (unnamed, check_replay) (later_Spent jti exp before now cache le s)
  | inr (other, named) ↦
      rw (named, check_replay) (use-Spent jti other exp before now d.exp cache le s)
]

finish_cache :
    (action pattern : Str) (d : TokenClaims) (m : Result {0, 0} TokenError Unit × Dict ℕ)
    → (finish action pattern d m).1 ≡ m.1
unfolding finish
finish_cache action pattern d (ok u, cache) = refl
finish_cache action pattern d (err e, cache) = refl

finish_ok :
    (action pattern : Str) (d c : TokenClaims) (m : Result {0, 0} TokenError Unit × Dict ℕ)
    (cache' : Dict ℕ)
    → finish action pattern d m ≡ (ok c, cache')
    → (u : Unit) × (m ≡ (ok u, cache')) × (check_scope action pattern d ≡ ok c)
unfolding finish
finish_ok action pattern d c (ok u, cache) cache' h = (u, cc, cc)
finish_ok action pattern d c (err e, cache) cache' h = cc

-- The scope check returns the claims themselves.
check_scope-same :
    (action pattern : Str) (d c : TokenClaims) → check_scope action pattern d ≡ ok c → d ≡ c
unfolding check_scope
check_scope-same action pattern d c h = ground arith

module _ {ℓ} {K : Type ℓ} (decode : Str → K → ℕ → Decoded) where
  decoded_cases :
      (d : Decoded)
      → ((c : TokenClaims) × (d ≡ claims c))
        ⊎ ((d ≡ expired_signature) ⊎ ((d ≡ invalid_signature) ⊎ (d ≡ invalid_token)))
  decoded_cases (claims c) = inl (c, refl)
  decoded_cases expired_signature = inr (inl refl)
  decoded_cases invalid_signature = inr (inr (inl refl))
  decoded_cases invalid_token = inr (inr (inr refl))

  try_keys-ok :
      (token : Str) (now : ℕ) (keys : List K) (c : TokenClaims)
      → try_keys decode token now keys ≡ ok c
      → (k : K) × (decode token k now ≡ claims c)
  unfolding try_keys
  try_keys-ok token now [] c h = cc
  try_keys-ok token now (k ∷ keys) c h = elim (decoded_cases (decode token k now)) [
    | inl (d, e) ↦ (k, e ∙ ap claims (cc (rw (e, try_keys) at h)))
    | inr (inl late) ↦ cc (rw (late, try_keys) at h)
    | inr (inr (inl forged)) ↦ try_keys-ok token now keys c (rw (forged, try_keys) at h)
    | inr (inr (inr bad)) ↦ try_keys-ok token now keys c (rw (bad, try_keys) at h)
  ]

  -- A request that was accepted: its token decodes to the claims, whose replay check passed.
  abbrev pub Accepted : Str → ℕ → Dict ℕ → TokenClaims → Dict ℕ → Type ℓ
  Accepted token now cache c cache' =
      ((k : K) × (decode token k now ≡ claims c))
      × ((u : Unit) × (check_replay c now cache ≡ (ok u, cache')))

  decoded-Accepted :
      (action pattern token : Str) (now : ℕ) (cache cache' : Dict ℕ) (keys : List K)
      (m : Result TokenError TokenClaims) (c : TokenClaims)
      → try_keys decode token now keys ≡ m
      → verify_decoded decode action pattern now cache m ≡ (ok c, cache')
      → Accepted token now cache c cache'
  unfolding verify_decoded
  decoded-Accepted action pattern token now cache cache' keys (err e) c t h = cc
  decoded-Accepted action pattern token now cache cache' keys (ok d) c t h =
      let (u, r, s) = finish_ok action pattern d c (check_replay d now cache) cache' h in
      let same = check_scope-same action pattern d c s in
      subst (λ x. Accepted token now cache x cache') same (try_keys-ok token now keys d t, (u, r))

  with_keys-Accepted :
      (action pattern token : Str) (keys : List K) (now : ℕ) (cache cache' : Dict ℕ)
      (c : TokenClaims)
      → with_keys decode action pattern token keys now cache ≡ (ok c, cache')
      → Accepted token now cache c cache'
  unfolding with_keys
  with_keys-Accepted action pattern token [] now cache cache' c h = cc
  with_keys-Accepted action pattern token (k ∷ keys) now cache cache' c h =
      decoded-Accepted action pattern token now cache cache' (k ∷ keys)
        (try_keys decode token now (k ∷ keys)) c refl h

  pub verify-Accepted :
      (action pattern header : Str) (keys : List K) (now : ℕ) (cache cache' : Dict ℕ)
      (c : TokenClaims)
      → verify decode action pattern header keys now cache ≡ (ok c, cache')
      → Accepted (drop 7 header) now cache c cache'
  unfolding verify
  verify-Accepted action pattern header keys now cache cache' c h =
      elim (Bool-cases (starts_with (codes "Bearer ") header)) [
        | inr bare ↦ cc (rw (bare, verify) at h)
        | inl bearer ↦
            with_keys-Accepted action pattern (drop 7 header) keys now cache cache' c
              (rw (bearer, verify) at h)
      ]

  decoded-Spent :
      (jti : Str) (exp before now : ℕ) (action pattern : Str) (cache : Dict ℕ)
      (m : Result TokenError TokenClaims)
      → before ≤ now
      → Spent jti exp before cache
      → Spent jti exp now (verify_decoded decode action pattern now cache m).1
  unfolding verify_decoded
  decoded-Spent jti exp before now action pattern cache (err e) le s =
      later_Spent jti exp before now cache le s
  decoded-Spent jti exp before now action pattern cache (ok d) le s =
      subst (Spent jti exp now) (sym (finish_cache action pattern d (check_replay d now cache)))
        (replay-Spent jti exp before now d cache le s)

  with_keys-Spent :
      (jti : Str) (exp before now : ℕ) (action pattern token : Str) (keys : List K) (cache : Dict ℕ)
      → before ≤ now
      → Spent jti exp before cache
      → Spent jti exp now (with_keys decode action pattern token keys now cache).1
  unfolding with_keys
  with_keys-Spent jti exp before now action pattern token [] cache le s =
      later_Spent jti exp before now cache le s
  with_keys-Spent jti exp before now action pattern token (k ∷ keys) cache le s =
      decoded-Spent jti exp before now action pattern cache (try_keys decode token now (k ∷ keys))
        le s

  -- A request to any endpoint of the resource.
  pub record Request : Type ℓ where
    pub action : Str
    pub pattern : Str
    pub header : Str
    pub keys : List K
    pub at : ℕ

  abbrev pub verify_request : Request → Dict ℕ → Result TokenError TokenClaims × Dict ℕ
  verify_request r cache = verify decode r.action r.pattern r.header r.keys r.at cache

  request-Spent :
      (jti : Str) (exp before : ℕ) (r : Request) (cache : Dict ℕ)
      → before ≤ r.at
      → Spent jti exp before cache
      → Spent jti exp r.at (verify_request r cache).1
  unfolding verify
  request-Spent jti exp before r cache le s =
      elim (Bool-cases (starts_with (codes "Bearer ") r.header)) [
        | inr bare ↦ rw (bare, verify) (later_Spent jti exp before r.at cache le s)
        | inl bearer ↦
            rw (bearer, verify)
              (with_keys-Spent jti exp before r.at r.action r.pattern (drop 7 r.header) r.keys cache
                le s)
      ]

  -- The cache after these requests.
  abbrev pub cache_after : List Request → Dict ℕ → Dict ℕ
  cache_after [] cache = cache
  cache_after (r ∷ requests) cache = cache_after requests (verify_request r cache).1

  -- The clock does not run backwards from `from` over these requests to `to`.
  abbrev pub Ordered : ℕ → List Request → ℕ → Type 0
  Ordered from [] to = from ≤ to
  Ordered from (r ∷ requests) to = (from ≤ r.at) × Ordered r.at requests to

  pub requests-Spent :
      (jti : Str) (exp from to : ℕ) (requests : List Request) (cache : Dict ℕ)
      → Ordered from requests to
      → Spent jti exp from cache
      → Spent jti exp to (cache_after requests cache)
  requests-Spent jti exp from to [] cache o s = later_Spent jti exp from to cache o s
  requests-Spent jti exp from to (r ∷ requests) cache (o, os) s =
      requests-Spent jti exp r.at to requests (verify_request r cache).1 os
        (request-Spent jti exp from r cache o s)
