-- ===== src/Registration.antt =====
-- The registration of an agent with a proof that it holds its key: `_parse_jwk` and
-- `verify_registration_proof` of gateway/identity.py, and the routes of gateway/api.py that use them
-- (Registration/Routes). `base64.b64decode`, SHA-256 and the Ed25519 check are arguments; a public key
-- is its bytes. The clock is read once for each call.
pub mod Routes
pub mod Proved
pub mod Holders
pub mod Tests
use agent_authorization_gate.Base.{
  ℕ, zero, suc, ◌+◌, ◌-◌, ◌%◌, Bool, true, false, not, ◌||◌, Option, none, some, List, [], ◌∷◌,
  ◌++◌, Result, ok, err, ◌>>=◌, Str, Bytes, codes, str_eq, hex, length, take, map, ltb, ◌==◌,
  if◌then◌else◌,
}
use agent_authorization_gate.Base.Int.{ℤ, pos, negsuc}
use agent_authorization_gate.Canonical.{Value, Fields, end, field, CanonicalError, canonicalize}
use agent_authorization_gate.Verify.{get}
use agent_authorization_gate.Packet.{is_truthy}
use agent_authorization_gate.Liveness.{truthy}
use agent_authorization_gate.Identity.{ChallengeError, RegistrationChallengeCache, consume}

abbrev pub challenge_ttl : ℕ
challenge_ttl = 60

-- What `_parse_jwk` raises: a ValueError, or the AttributeError of an `x` that is no text.
pub data JwkError : Type 0 where
  bad_jwk not_text : JwkError

-- The fields that the check reads; any of them may be missing.
pub record RegistrationProof : Type 0 where
  pub nonce : Option Str
  pub challenge_id : Option Str
  pub signature : Option Str
  pub iat : Option ℤ

pub data RegistrationError : Type 0 where
  no_proof invalid_proof_format proof_expired signature_decode_error : RegistrationError
  invalid_proof_signature : RegistrationError
  challenge_refused : ChallengeError → RegistrationError

-- A refusal, or an exception that the check does not catch.
pub data RegistrationFailure : Type 0 where
  refused : RegistrationError → RegistrationFailure
  raised : RegistrationFailure

-- `replace("-", "+").replace("_", "/")`
unfoldable pub standard_char : ℕ → ℕ
standard_char c = if c == b'-' then b'+' else if c == b'_' then b'/' else c

unfoldable pub equals_signs : ℕ → Str
equals_signs zero = []
equals_signs (suc n) = b'=' ∷ equals_signs n

-- The padding of a base64url text.
unfoldable pub padded : Str → Str
padded s =
    let t = map standard_char s in
    let padding = 4 - length t % 4 in if padding == 4 then t else t ++ equals_signs padding

-- `jwk.get(key) == text`
unfoldable pub field_is : Str → Str → Fields → Bool
field_is key text jwk = elim (get key jwk) [
  | none ↦ false
  | some (Value.str s) ↦ str_eq s text
  | some _ ↦ false
]

-- `if not x: raise`, for `x = jwk.get("x", "")`.
unfoldable pub x_text : Option Value → Result JwkError Str
x_text none = err bad_jwk
x_text (some (Value.str [])) = err bad_jwk
x_text (some (Value.str (c ∷ s))) = ok (c ∷ s)
x_text (some v) = if is_truthy v then err not_text else err bad_jwk

-- `abs(time.time() - iat) > _CHALLENGE_TTL`
unfoldable pub out_of_time : ℕ → ℤ → Bool
out_of_time now (pos i) = ltb (i + challenge_ttl) now || ltb (now + challenge_ttl) i
out_of_time now (negsuc i) = ltb challenge_ttl (now + (i + 1))

unfoldable pub registration_fields : Str → Str → Fields → Str → Str → ℤ → Fields
registration_fields tenant_id agent_id jwk nonce challenge_id iat =
    field (codes "v") (Value.str (codes "1")) (
      field (codes "tenant_id") (Value.str tenant_id) (
        field (codes "agent_id") (Value.str agent_id) (
          field (codes "public_key") (Value.dict jwk) (
            field (codes "nonce") (Value.str nonce) (
              field (codes "challenge_id") (Value.str challenge_id)
                (field (codes "iat") (Value.int iat) end))))))

unfoldable pub build_registration_message :
    Str → Str → Fields → Str → Str → ℤ → Result CanonicalError Bytes
build_registration_message tenant_id agent_id jwk nonce challenge_id iat =
    canonicalize (Value.dict (registration_fields tenant_id agent_id jwk nonce challenge_id iat))

module _ (b64decode : Str → Option Bytes) (sha256 : Bytes → Bytes) where
  -- The key's bytes, and its `kid`.
  unfoldable pub parse_jwk : Fields → Result JwkError (Bytes × Str)
  parse_jwk jwk =
      if not (field_is (codes "kty") (codes "OKP") jwk)
      then err bad_jwk
      else if not (field_is (codes "crv") (codes "Ed25519") jwk)
      then err bad_jwk
      else elim (x_text (get (codes "x") jwk)) [
        | err e ↦ err e
        | ok x ↦ elim (b64decode (padded x)) [
          | none ↦ err bad_jwk
          | some key ↦
              if length key == 32
              then ok (key, codes "agent-" ++ take 16 (hex (sha256 key)))
              else err bad_jwk
        ]
      ]

  module _ (ed_check : Bytes → Bytes → Bytes → Bool) where
    unfoldable pub parsed_key : Result JwkError (Bytes × Str) → Result RegistrationFailure Bytes
    parsed_key (ok (key, kid)) = ok key
    parsed_key (err bad_jwk) = err (refused invalid_proof_format)
    parsed_key (err not_text) = err raised

    abbrev message_or_raise : Result CanonicalError Bytes → Result RegistrationFailure Bytes
    message_or_raise (ok m) = ok m
    message_or_raise (err _) = err raised

    abbrev decoded : Option Bytes → Result RegistrationFailure Bytes
    decoded (some b) = ok b
    decoded none = err (refused signature_decode_error)

    -- The end of `verify_registration_proof`, after the challenge is consumed.
    unfoldable pub check_possession :
        Fields → Str → Result CanonicalError Bytes → Result {0, 0} RegistrationFailure Unit
    check_possession jwk signature message = do
      sig_bytes ← decoded (b64decode (padded signature))
      key ← parsed_key (parse_jwk jwk)
      m ← message_or_raise message
      if ed_check key sig_bytes m then ok tt else err (refused invalid_proof_signature)

    -- The part behind the format check, on the fields of the proof.
    unfoldable pub check_proof_fields :
        Fields
        → Str
        → Str
        → Str
        → ℤ
        → Str
        → Str
        → ℕ
        → RegistrationChallengeCache
        → Result {0, 0} RegistrationFailure Unit × RegistrationChallengeCache
    check_proof_fields jwk nonce challenge_id signature iat tenant_id agent_id now cache =
        if out_of_time now iat
        then (err (refused proof_expired), cache)
        else (let (answer, cache') = consume tenant_id agent_id nonce challenge_id now cache in
            elim answer [
              | err e ↦ (err (refused (challenge_refused e)), cache')
              | ok _ ↦ (
                check_possession jwk signature
                    (build_registration_message tenant_id agent_id jwk nonce challenge_id iat),
                cache',
              )
            ])

    -- `all([nonce, challenge_id, signature_b64, iat is not None])`
    unfoldable pub proof_fields : RegistrationProof → Option (Str × Str × Str × ℤ)
    proof_fields p = elim (truthy p.nonce) [
      | none ↦ none
      | some nonce ↦ elim (truthy p.challenge_id) [
        | none ↦ none
        | some challenge_id ↦ elim (truthy p.signature) [
          | none ↦ none
          | some signature ↦ elim p.iat [
            | none ↦ none
            | some iat ↦ some (nonce, challenge_id, signature, iat)
          ]
        ]
      ]
    ]

    unfoldable pub verify_registration_proof :
        Fields
        → Option RegistrationProof
        → Str
        → Str
        → ℕ
        → RegistrationChallengeCache
        → Result {0, 0} RegistrationFailure Unit × RegistrationChallengeCache
    verify_registration_proof jwk none tenant_id agent_id now cache =
        (err (refused no_proof), cache)
    verify_registration_proof jwk (some p) tenant_id agent_id now cache = elim (proof_fields p) [
      | none ↦ (err (refused invalid_proof_format), cache)
      | some (nonce, challenge_id, signature, iat) ↦
          check_proof_fields jwk nonce challenge_id signature iat tenant_id agent_id now cache
    ]
