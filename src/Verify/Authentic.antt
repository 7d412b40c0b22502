-- ===== src/Verify/Authentic.antt =====
-- What `verify_receipt` of gateway/verify.py checked when it reports no failure of integrity.
use agent_authorization_gate.Base.{
  ◌≡◌, ◌≢◌, refl, sym, true, Bool-cases, Option, none, some, Option-cases, List, [], ◌∷◌, ◌++◌, ok,
  Result-cases, >>=-ok, ◌⊎◌, inl, inr, Str, Bytes, arith, str_eq_iff,
}
use agent_authorization_gate.Canonical.{Value, Fields, canonicalize}
use agent_authorization_gate.Receipts.{Envelope, Sig, receipt_hash_of}
use agent_authorization_gate.Verify.{
  Jwk, fail, ErrorCode, Check, valid, VerificationResult, body_of, sig_of, open_envelope, hash_ok,
  signature_errors, verify_receipt, integrity_of, bounded_check, prev_receipt_of, hash_errors,
}

body_of-some : (o : Option Fields) (body : Fields) → body_of o ≡ some body → o ≡ some body
unfolding body_of
body_of-some o body h = ground arith

sig_of-some : (o : Option Sig) (s : Sig) → sig_of o ≡ some s → o ≡ some s
unfolding sig_of
sig_of-some o s h = ground arith

open_envelope-ok :
    (e : Envelope) (key : Jwk) (body : Fields) (sig : Sig) (b : Bytes)
    → open_envelope e key ≡ ok (body, sig, b)
    → (e.body ≡ some body) × (e.sig ≡ some sig) × (canonicalize (Value.dict body) ≡ ok b)
unfolding open_envelope
open_envelope-ok e key body sig b h =
    ground (arith, body_of-some e.body body, sig_of-some e.sig sig)

pub hash_ok-some : (h computed : Str) → hash_ok (some h) computed ≡ true → (h ≡ []) ⊎ (h ≡ computed)
unfolding hash_ok
hash_ok-some [] computed e = inl refl
hash_ok-some (c ∷ h) computed e = inr (sym ((str_eq_iff computed (c ∷ h)).0 e))

-- The envelope's signature is one of the key over the canonical bytes of its body.
pub record Authentic (check : Str → Str → Bytes → Check) (key : Jwk) (e : Envelope) : Type 0 where
  pub body : Fields
  pub sig : Sig
  pub bytes : Bytes
  pub x : Str
  pub value : Str
  pub body_stands : e.body ≡ some body
  pub sig_stands : e.sig ≡ some sig
  pub canonical : canonicalize (Value.dict body) ≡ ok bytes
  pub key_stands : key.x ≡ some x
  pub value_stands : sig.value ≡ some value
  pub signed : check x value bytes ≡ valid

no_errors : (xs ys : List ErrorCode) → integrity_of (xs ++ ys) ≢ fail → (xs ≡ []) × (ys ≡ [])
no_errors [] [] n = (refl, refl)
no_errors [] (y ∷ ys) n = absurd (n refl)
no_errors (x ∷ xs) ys n = absurd (n refl)

module _ (sha256 : Bytes → Bytes) (check : Str → Str → Bytes → Check) where
  signature_errors-none :
      (sig : Sig) (key : Jwk) (b : Bytes)
      → signature_errors sha256 check sig key b ≡ []
      → (x value : Str) × (key.x ≡ some x) × (sig.value ≡ some value) × (check x value b ≡ valid)
  unfolding signature_errors
  signature_errors-none sig key b h = elim (Option-cases key.x) [
    | inl none_there ↦ cc (rw none_there at h)
    | inr (x, kx) ↦ elim (Option-cases sig.value) [
      | inl none_there ↦ cc (rw none_there at (rw kx at h))
      | inr (value, kv) ↦ (x, value, kx, kv, ground arith)
    ]
  ]

  hash_errors-none :
      (claimed : Option Str) (b : Bytes)
      → hash_errors sha256 check claimed b ≡ []
      → hash_ok claimed (receipt_hash_of sha256 b) ≡ true
  hash_errors-none claimed b h = elim (Bool-cases (hash_ok claimed (receipt_hash_of sha256 b))) [
    | inl t ↦ t
    | inr f ↦ cc (rw f at h)
  ]

  pub verify_receipt_sound :
      (e : Envelope) (key : Jwk) (single : VerificationResult)
      → verify_receipt sha256 check e key none ≡ ok single
      → single.receipt_integrity ≢ fail
      → (a : Authentic check key e) × (hash_ok e.receipt_hash (receipt_hash_of sha256 a.bytes)
          ≡ true)
  unfolding verify_receipt
  verify_receipt_sound e key single h n = elim (Result-cases (open_envelope e key)) [
    | inr (c, o) ↦ let stopped = rw (o, verify_receipt) at h in absurd (n cc)
    | inl ((body, sig, b), o) ↦
        let opened = rw (o, verify_receipt) at h in
        let ((validity, more), g, returned) =
          >>=-ok (bounded_check body (prev_receipt_of body) none) _ opened in
        let (no_hash, no_sig) =
          no_errors (hash_errors sha256 check e.receipt_hash b)
            (signature_errors sha256 check sig key b) (λ f. n cc) in
        let (x, value, kx, kv, k) = signature_errors-none sig key b no_sig in
        let (eb, es, ec) = open_envelope-ok e key body sig b o in
        (
          record {
            body = body;
            sig = sig;
            bytes = b;
            x = x;
            value = value;
            body_stands = eb;
            sig_stands = es;
            canonical = ec;
            key_stands = kx;
            value_stands = kv;
            signed = k;
          },
          hash_errors-none e.receipt_hash b no_hash,
        )
  ]
