-- ===== src/Packet/Passing.antt =====
-- What a passing report of gateway/audit_packet_verifier.py says of each step.
use agent_authorization_gate.Base.{
  ◌+◌, ◌≡◌, ◌↔◌, refl, sym, ◌∙◌, Bool, true, false, ◌&&◌, inl, inr, Option, Option-cases, some,
  List, [], ◌∷◌, ◌++◌, Result-cases, ok, Str, Bytes, str_eq, str_eq_iff, All, arith,
}
use agent_authorization_gate.Packet.{
  VerificationReport, Check, passed, Dict, Sig, valid, PacketError, Jwk, invalid_signature,
  resolve_key, Envelope, signature_error, kid_or_empty, canonicalize, Value, value_or_empty,
  no_public_key, body_or_empty, receipt_hash_of, text_or_empty, canonicalization_failed,
}
use agent_authorization_gate.Packet.Signatures.{
  check_signature, sig_failed, note_hash, note_check, check_receipt, check_receipts,
}
use agent_authorization_gate.Verify.{invalid, failed}

-- A report that passed, and goes on to pass.
abbrev pub Passes : VerificationReport → Type 0
Passes r = passed r ≡ true

passed-sig_failed : (e : PacketError) (r : VerificationReport) → passed (sig_failed e r) ≡ false
unfolding passed sig_failed
passed-sig_failed e r = ground arith

passed-note_hash : (b : Bool) (r : VerificationReport) → passed (note_hash b r) ≡ (b && passed r)
unfolding passed note_hash
passed-note_hash true r = refl
passed-note_hash false r = ground arith

passed-valid : (r : VerificationReport) → passed (note_check valid r) ≡ passed r
unfolding passed note_check
passed-valid r = refl

pub and_true : (a b : Bool) → ((a && b) ≡ true) ↔ ((a ≡ true) × (b ≡ true))
and_true true true = ground arith
and_true true false = ground arith
and_true false b = ground arith

module _ (sha256 : Bytes → Bytes) (check : Str → Str → Bytes → Check) where
  -- A key of the packet with the signature's `kid` accepts the signature of the body.
  abbrev pub Signed : Dict Jwk → Option Sig → Bytes → Type 0
  Signed keys sig b =
      (jwk : Jwk) × (resolve_key (kid_or_empty sig) keys ≡ some jwk)
      × (x : Str) × (jwk.x ≡ some x)
      × (check x (value_or_empty sig) b ≡ valid)

  -- The receipt states the hash of its canonical body, and is signed.
  abbrev pub Genuine : Dict Jwk → Envelope → Type 0
  Genuine keys e =
      (b : Bytes) × (canonicalize (Value.dict (body_or_empty e.body)) ≡ ok b)
      × (receipt_hash_of sha256 b ≡ text_or_empty e.receipt_hash)
      × Signed keys e.sig b

  note_check-Passes :
      (c : Check) (r : VerificationReport) → Passes (note_check c r) → (c ≡ valid) × Passes r
  unfolding note_check
  note_check-Passes valid r h = (refl, sym (passed-valid r) ∙ h)
  note_check-Passes invalid r h = cc (passed-sig_failed invalid_signature r)
  note_check-Passes failed r h = cc (passed-sig_failed signature_error r)

  signature_to :
      (sig : Option Sig) (keys : Dict Jwk) (b : Bytes) (r : VerificationReport)
      → Passes (check_signature sha256 check sig keys b r)
      → Signed keys sig b × Passes r
  unfolding check_signature
  signature_to sig keys b r h = elim (Option-cases (resolve_key (kid_or_empty sig) keys)) [
    | inl missing ↦
        let h' = rw (missing, check_signature) at h in cc (passed-sig_failed no_public_key r)
    | inr (jwk, found) ↦ elim (Option-cases jwk.x) [
      | inl no_x ↦
          let h' = rw (no_x) at (rw (found, check_signature) at h) in
          cc (passed-sig_failed signature_error r)
      | inr (x, has_x) ↦
          let h' : Passes (note_check (check x (value_or_empty sig) b) r) =
            rw has_x at (rw (found, check_signature) at h) in
          let (v, p) = note_check-Passes (check x (value_or_empty sig) b) r h' in
          ((jwk, found, x, has_x, v), p)
    ]
  ]

  signature_from :
      (sig : Option Sig) (keys : Dict Jwk) (b : Bytes) (r : VerificationReport)
      → Signed keys sig b
      → Passes r
      → Passes (check_signature sha256 check sig keys b r)
  unfolding check_signature
  signature_from sig keys b r (jwk, found, x, has_x, v) p =
      rw (found, check_signature) (rw has_x (rw v (passed-valid r ∙ p)))

  receipt_to :
      (keys : Dict Jwk) (e : Envelope) (r : VerificationReport)
      → Passes (check_receipt sha256 check keys e r)
      → Genuine keys e × Passes r
  unfolding check_receipt
  receipt_to keys e r h = elim (Result-cases (canonicalize (Value.dict (body_or_empty e.body)))) [
    | inr (x, raised) ↦
        let h' : Passes (record r {
          receipt_hash_fail = r.receipt_hash_fail + 1;
          errors = r.errors ++ (canonicalization_failed ∷ []);
        }) =
          rw (raised, check_receipt) at h in
        unfold passed in ground arith
    | inl (b, body) ↦
        let same = str_eq (receipt_hash_of sha256 b) (text_or_empty e.receipt_hash) in
        let (signed, p) =
          signature_to e.sig keys b (note_hash same r) (rw (body, check_receipt) at h) in
        let (hash, rest) = (and_true same (passed r)).0 (sym (passed-note_hash same r) ∙ p) in
        ((b, body, (str_eq_iff _ _).0 hash, signed), rest)
  ]

  receipt_from :
      (keys : Dict Jwk) (e : Envelope) (r : VerificationReport)
      → Genuine keys e
      → Passes r
      → Passes (check_receipt sha256 check keys e r)
  unfolding check_receipt
  receipt_from keys e r (b, body, hash, signed) p =
      let same = str_eq (receipt_hash_of sha256 b) (text_or_empty e.receipt_hash) in
      let hashed : Passes (note_hash same r) =
        passed-note_hash same r ∙ (and_true same (passed r)).1 ((str_eq_iff _ _).1 hash, p) in
      rw (body, check_receipt) (signature_from e.sig keys b (note_hash same r) signed hashed)

  pub receipts_to :
      (keys : Dict Jwk) (es : List Envelope) (r : VerificationReport)
      → Passes (check_receipts sha256 check keys es r)
      → All (Genuine keys) es × Passes r
  unfolding check_receipts
  receipts_to keys [] r h = (tt, h)
  receipts_to keys (e ∷ es) r h =
      let (rest, p) = receipts_to keys es (check_receipt sha256 check keys e r) h in
      let (here, q) = receipt_to keys e r p in ((here, rest), q)

  pub receipts_from :
      (keys : Dict Jwk) (es : List Envelope) (r : VerificationReport)
      → All (Genuine keys) es
      → Passes r
      → Passes (check_receipts sha256 check keys es r)
  unfolding check_receipts
  receipts_from keys [] r g p = p
  receipts_from keys (e ∷ es) r g p =
      receipts_from keys es (check_receipt sha256 check keys e r) g.1 (receipt_from keys e r g.0 p)
