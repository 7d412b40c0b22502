-- ===== src/Verify.antt =====
-- gateway/verify.py: the verification of receipt envelopes. `check x value message` stands for the
-- Ed25519 verification of a base64url signature under the base64url key `x`. Error messages are
-- dropped and their codes kept. In an envelope or a key, `none` is a key of the dict that is missing.
pub mod Chain
pub mod Accepted
pub mod Issued
pub mod Authentic
pub mod Linked
pub mod Tests
use agent_authorization_gate.Base.{
  ℕ, zero, suc, ◌+◌, ◌-◌, Bool, true, false, not, Option, none, some, List, [], ◌∷◌, ◌++◌, Result,
  ok, err, ◌>>=◌, Str, Bytes, codes, str_eq, hex, if◌then◌else◌, ◌==◌,
}
use agent_authorization_gate.Base.Int.{ℤ, pos, negsuc, int_of_str}
use agent_authorization_gate.Base.Dict.{Dict, lookup}
use agent_authorization_gate.Canonical.{Value, Fields, end, field, canonicalize}
use agent_authorization_gate.Receipts.{Envelope, Sig, genesis_prev_receipt, receipt_hash_of}

pub record Jwk : Type 0 where
  pub kid : Option Str
  pub x : Option Str

pub data Verdict : Type 0 where
  pass fail inconclusive : Verdict

pub data ErrorCode : Type 0 where
  missing_fields kid_mismatch unsupported_algorithm canonicalization_failed receipt_hash_mismatch :
      ErrorCode
  signature_invalid signature_error seq_invalid prev_not_found prev_link_broken : ErrorCode
  empty_chain sequence_gap chain_break : ErrorCode

-- What verification itself may raise.
pub data Raised : Type 0 where
  key_error value_error type_error : Raised

-- The outcome of the signature check: `InvalidSignature` or any other exception.
pub data Check : Type 0 where
  valid invalid failed : Check

pub record VerificationResult : Type 0 where
  pub receipt_integrity : Verdict
  pub chain_validity : Verdict
  pub errors : List ErrorCode

-- `body.get(key)`
unfoldable pub get : Str → Fields → Option Value
get k end = none
get k (field j v fs) = if str_eq j k then some v else get k fs

-- `a == b` for texts that may be missing.
unfoldable pub same_text : Option Str → Option Str → Bool
same_text none none = true
same_text none (some _) = false
same_text (some _) none = false
same_text (some s) (some t) = str_eq s t

-- `value == text`
unfoldable pub is_text : Value → Str → Bool
is_text (Value.str s) t = str_eq s t
is_text _ t = false

-- `int(value)`. The exception of a float that is an infinity is not told apart from a ValueError.
unfoldable pub to_int : Value → Result Raised ℤ
to_int Value.null = err type_error
to_int (Value.bool true) = ok (pos 1)
to_int (Value.bool false) = ok (pos 0)
to_int (Value.int n) = ok n
to_int (Value.float none) = err value_error
to_int (Value.float (some n)) = ok n
to_int (Value.str s) = elim (int_of_str s) [ none ↦ err value_error | some n ↦ ok n ]
to_int (Value.list _) = err type_error
to_int (Value.dict _) = err type_error
to_int Value.other = err type_error

-- `value[:30]` inside a message; slicing what is no sequence raises.
unfoldable pub slice : Value → Result {0, 0} Raised Unit
slice (Value.str _) = ok tt
slice (Value.list _) = ok tt
slice _ = err type_error

-- `a == b` on integers, and `a == b - 1`.
unfoldable pub int_eq : ℤ → ℤ → Bool
int_eq (pos m) (pos n) = m == n
int_eq (negsuc m) (negsuc n) = m == n
int_eq _ _ = false

unfoldable pub pred_int : ℤ → ℤ
pred_int (pos zero) = negsuc 0
pred_int (pos (suc n)) = pos n
pred_int (negsuc n) = negsuc (suc n)

-- `not body`: no body, or an empty one.
unfoldable pub body_of : Option Fields → Option Fields
body_of none = none
body_of (some end) = none
body_of (some (field k v fs)) = some (field k v fs)

-- `not sig`: no signature, or an object with none of the three keys.
unfoldable pub sig_of : Option Sig → Option Sig
sig_of none = none
sig_of (some s) = elim s.alg [
  | some _ ↦ some s
  | none ↦ elim s.kid [ some _ ↦ some s | none ↦ elim s.value [ some _ ↦ some s | none ↦ none ] ]
]

-- The checks of `verify_receipt` that return at once, in order, and the canonical body.
unfoldable pub open_envelope : Envelope → Jwk → Result ErrorCode (Fields × Sig × Bytes)
open_envelope e key = elim (body_of e.body) [
  | none ↦ err missing_fields
  | some body ↦ elim (sig_of e.sig) [
    | none ↦ err missing_fields
    | some sig ↦
        if not (same_text sig.kid key.kid)
        then err kid_mismatch
        else if not (same_text sig.alg (some (codes "EdDSA")))
        then err unsupported_algorithm
        else elim (canonicalize (Value.dict body)) [
          | err _ ↦ err canonicalization_failed
          | ok b ↦ ok (body, sig, b)
        ]
  ]
]

-- `not (claimed_hash and computed_hash != claimed_hash)`
unfoldable pub hash_ok : Option Str → Str → Bool
hash_ok none computed = true
hash_ok (some []) computed = true
hash_ok (some (c ∷ s)) computed = str_eq computed (c ∷ s)

-- `int(r.get("body", {}).get("seq", "0"))`
abbrev seq_or_zero : Option Fields → Result Raised ℤ
seq_or_zero none = ok (pos 0)
seq_or_zero (some body) = elim (get (codes "seq") body) [ none ↦ ok (pos 0) | some v ↦ to_int v ]

-- The first envelope whose `seq` is the given one.
unfoldable pub find_prior : ℤ → List Envelope → Option Envelope
find_prior n [] = none
find_prior n (e ∷ es) =
    let rest = find_prior n es in
    elim (seq_or_zero e.body) [ err _ ↦ rest | ok m ↦ if int_eq m n then some e else rest ]

-- `prior.get("receipt_hash") == prev_hash`
unfoldable pub links : Option Str → Value → Bool
links none Value.null = true
links (some h) (Value.str s) = str_eq h s
links _ _ = false

-- The bounded chain check, on `body.get("prev_receipt", "")`.
unfoldable pub bounded_check :
    Fields → Value → Option (List Envelope) → Result Raised (Verdict × List ErrorCode)
bounded_check body prev_hash chain =
    if is_text prev_hash genesis_prev_receipt then ok (pass, []) else elim chain [
      | none ↦ ok (inconclusive, [])
      | some es ↦ elim (seq_or_zero (some body)) [
        | err _ ↦ ok (inconclusive, seq_invalid ∷ [])
        | ok n ↦ elim (find_prior (pred_int n) es) [
          | none ↦ ok (inconclusive, prev_not_found ∷ [])
          | some prior ↦
              if links prior.receipt_hash prev_hash
              then ok (pass, [])
              else (do _ ← slice prev_hash; ok (fail, prev_link_broken ∷ []))
        ]
      ]
    ]

abbrev pub prev_receipt_of : Fields → Value
prev_receipt_of body = elim (get (codes "prev_receipt") body) [ none ↦ Value.str [] | some v ↦ v ]

abbrev pub integrity_of : List ErrorCode → Verdict
integrity_of [] = pass
integrity_of (_ ∷ _) = fail

module _ (sha256 : Bytes → Bytes) (check : Str → Str → Bytes → Check) where
  -- The signature check, with the errors that it adds.
  unfoldable pub signature_errors : Sig → Jwk → Bytes → List ErrorCode
  signature_errors sig key b = elim key.x [
    | none ↦ signature_error ∷ []
    | some x ↦ elim sig.value [
      | none ↦ signature_error ∷ []
      | some value ↦ elim (check x value b) [
        | valid ↦ []
        | invalid ↦ signature_invalid ∷ []
        | failed ↦ signature_error ∷ []
      ]
    ]
  ]

  abbrev pub hash_errors : Option Str → Bytes → List ErrorCode
  hash_errors claimed b =
      if hash_ok claimed (receipt_hash_of sha256 b) then [] else receipt_hash_mismatch ∷ []

  unfoldable pub verify_receipt :
      Envelope → Jwk → Option (List Envelope) → Result Raised VerificationResult
  verify_receipt e key chain = elim (open_envelope e key) [
    | err c ↦
        ok (record { receipt_integrity = fail; chain_validity = inconclusive; errors = c ∷ [] })
    | ok (body, sig, b) ↦
        let errors = hash_errors e.receipt_hash b ++ signature_errors sig key b in
        (do
          (validity, more) ← bounded_check body (prev_receipt_of body) chain
          ok (record {
            receipt_integrity = integrity_of errors;
            chain_validity = validity;
            errors = errors ++ more;
          }))
  ]
