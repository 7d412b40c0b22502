-- ===== src/Tokens.antt =====
-- gateway/tokens.py: the payload of an authorization token, and the digest of an action. The JWT
-- library's `encode` is an argument of the code that issues a token.
pub mod Middleware
pub mod SingleUse
pub mod Requests
pub mod Once
pub mod Tests
use agent_authorization_gate.Base.{
  ℕ, ◌+◌, Option, none, some, List, [], ◌∷◌, ◌++◌, Result, ok, err, ◌>>=◌, Str, Bytes, codes, hex,
}
use agent_authorization_gate.Canonical.{Value, Fields, end, field, CanonicalError, canonicalize}

abbrev parameters_entry : Option Fields → Fields
parameters_entry none = end
parameters_entry (some end) = end
parameters_entry (some (field k v fs)) = field (codes "parameters") (Value.dict (field k v fs)) end

unfoldable pub intent_obj : Str → Str → Str → Option Fields → Fields
intent_obj agent_id action resource parameters = field (codes "agent_id") (Value.str agent_id) (
    field (codes "action") (Value.str action)
      (field (codes "resource") (Value.str resource) (parameters_entry parameters)))

unfoldable pub compute_action_digest :
    (Bytes → Bytes) → Str → Str → Str → Option Fields → Result CanonicalError Str
compute_action_digest sha256 agent_id action resource parameters = do
  b ← canonicalize (Value.dict (intent_obj agent_id action resource parameters))
  ok (codes "sha256:" ++ hex (sha256 b))

abbrev pub default_ttl_seconds : ℕ
default_ttl_seconds = 60

abbrev pub clock_skew_seconds : ℕ
clock_skew_seconds = 5

-- The payload, without the constant `iss` and `aud`.
pub record Payload : Type 0 where
  pub sub : Str
  pub tid : Str
  pub action : Str
  pub resource : Str
  pub action_digest : Str
  pub decision : Str
  pub receipt_hash : Str
  pub jti : Str
  pub iat : ℕ
  pub exp : ℕ

-- `receipt_jti or str(uuid.uuid4())`
unfoldable pub jti_or : Option Str → Str → Str
jti_or none fresh = fresh
jti_or (some []) fresh = fresh
jti_or (some (c ∷ s)) fresh = c ∷ s

-- The payload that `issue_token` signs.
unfoldable pub token_payload :
    Str → Str → Str → Str → Str → Str → Str → Option Str → Str → ℕ → Payload
token_payload agent_id action resource action_digest decision receipt_hash tenant receipt_jti fresh
      now =
    record {
      sub = agent_id;
      tid = tenant;
      action = action;
      resource = resource;
      action_digest = action_digest;
      decision = decision;
      receipt_hash = receipt_hash;
      jti = jti_or receipt_jti fresh;
      iat = now;
      exp = now + default_ttl_seconds;
    }
