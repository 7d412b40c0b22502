-- ===== src/Tokens/Tests.antt =====
-- An instance of the theorem on gateway/middleware.py: a token for one action, presented twice.
use agent_authorization_gate.Base.{
  ℕ, ◌+◌, ◌≤◌, ◌≡◌, ◌≢◌, refl, some, [], ◌∷◌, ok, Str, codes, arith, leb, if◌then◌else◌, str_eq,
  starts_with, contains_text,
}
use agent_authorization_gate.Base.Dict.{Dict, lookup, insert, keep}
use agent_authorization_gate.Tokens.Middleware.{
  TokenClaims, Decoded, claims, expired_signature, use_token_jti, check_replay, check_scope, finish,
  try_keys, verify_decoded, with_keys, verify, clean_jti_cache, cached_until,
}
use agent_authorization_gate.Tokens.Requests.{Request, verify_request, cache_after}
use agent_authorization_gate.Tokens.Once.{token_accepted_once}

abbrev token_claims : TokenClaims
token_claims = record {
  jti = some (codes "j");
  exp = some 65;
  action = codes "read";
  resource = codes "customers";
}

-- Keys are numbers here.
abbrev decode : Str → ℕ → ℕ → Decoded
decode token k now = if leb now 69 then claims token_claims else expired_signature

abbrev claims_of : Decoded → TokenClaims
claims_of (claims c) = c
claims_of _ = token_claims

decodes_same : (now : ℕ) (c : TokenClaims) → decode [] 0 now ≡ claims c → token_claims ≡ c
decodes_same now c h = ground arith

same_claims :
    (token : Str) (k k' : ℕ) (t t' : ℕ) (c c' : TokenClaims)
    → decode token k t ≡ claims c
    → decode token k' t' ≡ claims c'
    → c ≡ c'
same_claims token k k' t t' c c' h h' = cc (decodes_same t c h, decodes_same t' c' h')

exp_of : (c : TokenClaims) (exp : ℕ) → token_claims ≡ c → c.exp ≡ some exp → exp ≡ 65
exp_of c exp e h = cc

in_time :
    (token : Str) (k : ℕ) (t : ℕ) (c : TokenClaims) (exp : ℕ)
    → decode token k t ≡ claims c
    → c.exp ≡ some exp
    → t ≤ exp + 5
in_time token k t c exp h e =
    let late : exp ≡ 65 = exp_of c exp (decodes_same t c h) e in ground arith

abbrev request : Str → ℕ → Request decode
request action now = record {
  action = action;
  pattern = codes "customers";
  header = codes "Bearer x";
  keys = 1 ∷ [];
  at = now;
}

abbrev First : Type 0
First =
    (cache : Dict ℕ) × (verify_request decode (request (codes "read") 10) []
      ≡ (ok token_claims, cache))

first : First
unfolding verify with_keys try_keys verify_decoded finish check_replay check_scope use_token_jti
    clean_jti_cache cached_until lookup insert keep str_eq starts_with contains_text
first = (_, refl)

token_accepted_once_example :
    (verify_request decode
      (request (codes "read") 60)
      (cache_after decode (request (codes "write") 20 ∷ []) first.0)).0
    ≢ ok token_claims
token_accepted_once_example =
    token_accepted_once decode same_claims in_time (request (codes "read") 10)
      (request (codes "read") 60) (request (codes "write") 20 ∷ []) [] first.0 token_claims
      token_claims (codes "j") 65 refl refl refl first.1 (omega arith, omega arith)
