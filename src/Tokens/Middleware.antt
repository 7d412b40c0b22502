-- ===== src/Tokens/Middleware.antt =====
-- gateway/middleware.py: what a protected resource checks of a request's token. The gateway's keys, as
-- they were fetched, and `jwt.decode` under a key at a time are arguments.
use agent_authorization_gate.Base.{
  ℕ, ◌+◌, not, ◌&&◌, Option, none, some, List, [], ◌∷◌, Result, ok, err, Str, codes, str_eq,
  starts_with, contains_text, drop, length, ltb, leb, if◌then◌else◌,
}
use agent_authorization_gate.Base.Dict.{Dict, insert, keep, contains}
use agent_authorization_gate.Tokens.{clock_skew_seconds}

-- The claims that are read; a missing `action` or `resource` reads as "".
pub record TokenClaims : Type 0 where
  pub jti : Option Str
  pub exp : Option ℕ
  pub action : Str
  pub resource : Str

-- What `jwt.decode` returns or raises.
pub data Decoded : Type 0 where
  claims : TokenClaims → Decoded
  expired_signature invalid_signature invalid_token : Decoded

pub data TokenError : Type 0 where
  no_token no_key expired signature_refused replay wrong_action wrong_resource : TokenError

-- `_JTI_CACHE_MAX`
abbrev pub jti_cache_max : ℕ
jti_cache_max = 10000

-- `_clean_jti_cache`
unfoldable pub clean_jti_cache : ℕ → Dict ℕ → Dict ℕ
clean_jti_cache now cache = keep (λ exp. leb now exp) cache

-- `claims.get("exp", time.time() + 60) + CLOCK_SKEW_SECONDS`
unfoldable pub cached_until : ℕ → Option ℕ → ℕ
cached_until now none = now + 60 + clock_skew_seconds
cached_until now (some exp) = exp + clock_skew_seconds

abbrev pub fresh_jti : Option Str → Option Str
fresh_jti none = none
fresh_jti (some []) = none
fresh_jti (some (c ∷ s)) = some (c ∷ s)

-- The replay check of a `jti` that is not empty.
unfoldable pub use_token_jti : Str → Option ℕ → ℕ → Dict ℕ → Result {0, 0} TokenError Unit × Dict ℕ
use_token_jti jti exp now cache =
    let cleaned = clean_jti_cache now cache in
    let used = insert jti (cached_until now exp) cleaned in
    if contains jti cleaned
    then (err replay, cleaned)
    else (ok tt, if ltb jti_cache_max (length used) then clean_jti_cache now used else used)

-- The replay check, which a token without a `jti` passes.
unfoldable pub check_replay : TokenClaims → ℕ → Dict ℕ → Result {0, 0} TokenError Unit × Dict ℕ
check_replay c now cache = elim (fresh_jti c.jti) [
  | none ↦ (ok tt, cache)
  | some jti ↦ use_token_jti jti c.exp now cache
]

-- The action and the resource.
unfoldable pub check_scope : Str → Str → TokenClaims → Result TokenError TokenClaims
check_scope action pattern c =
    if not (str_eq c.action action)
    then err wrong_action
    else if not (contains_text pattern c.resource) && not (contains_text c.resource pattern)
    then err wrong_resource
    else ok c

-- What follows the replay check; the cache keeps the `jti` of a token that is refused here.
unfoldable pub finish :
    Str
    → Str
    → TokenClaims
    → Result {0, 0} TokenError Unit × Dict ℕ
    → Result TokenError TokenClaims × Dict ℕ
finish action pattern c (err e, cache) = (err e, cache)
finish action pattern c (ok _, cache) = (check_scope action pattern c, cache)

module _ {ℓ} {K : Type ℓ} (decode : Str → K → ℕ → Decoded) where
  -- The loop over the keys: the first one under which the token decodes.
  unfoldable pub try_keys : Str → ℕ → List K → Result TokenError TokenClaims
  try_keys token now [] = err signature_refused
  try_keys token now (k ∷ keys) =
      let rest = try_keys token now keys in
      elim (decode token k now) [
        | claims c ↦ ok c
        | expired_signature ↦ err expired
        | invalid_signature ↦ rest
        | invalid_token ↦ rest
      ]

  unfoldable pub verify_decoded :
      Str
      → Str
      → ℕ
      → Dict ℕ
      → Result TokenError TokenClaims
      → Result TokenError TokenClaims × Dict ℕ
  verify_decoded action pattern now cache (err e) = (err e, cache)
  verify_decoded action pattern now cache (ok c) =
      finish action pattern c (check_replay c now cache)

  unfoldable pub with_keys :
      Str → Str → Str → List K → ℕ → Dict ℕ → Result TokenError TokenClaims × Dict ℕ
  with_keys action pattern token [] now cache = (err no_key, cache)
  with_keys action pattern token (k ∷ keys) now cache =
      verify_decoded action pattern now cache (try_keys token now (k ∷ keys))

  -- `verify` of `require_gateway_token(action, resource_pattern)`, on the Authorization header.
  unfoldable pub verify :
      Str → Str → Str → List K → ℕ → Dict ℕ → Result TokenError TokenClaims × Dict ℕ
  verify action pattern header keys now cache =
      if starts_with (codes "Bearer ") header
      then with_keys action pattern (drop 7 header) keys now cache
      else (err no_token, cache)
