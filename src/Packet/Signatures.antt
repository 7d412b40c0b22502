-- ===== src/Packet/Signatures.antt =====
-- Step 1 of gateway/audit_packet_verifier.py: the hashes and the signatures of the receipts.
use agent_authorization_gate.Base.{
  ◌+◌, Bool, true, false, Option, none, some, List, [], ◌∷◌, ◌++◌, ok, err, Str, Bytes, str_eq,
}
use agent_authorization_gate.Base.Dict.{Dict}
use agent_authorization_gate.Canonical.{Value, canonicalize}
use agent_authorization_gate.Receipts.{Envelope, Sig, receipt_hash_of}
use agent_authorization_gate.Verify.{Jwk, Check, valid, invalid, failed}
use agent_authorization_gate.Packet.{
  PacketError, canonicalization_failed, hash_mismatch, no_public_key, invalid_signature,
  signature_error, VerificationReport, AuditPacket, text_or_empty, body_or_empty, resolve_key,
  kid_or_empty, value_or_empty,
}

unfoldable pub sig_failed : PacketError → VerificationReport → VerificationReport
sig_failed e r = record r {
  receipt_sig_fail = r.receipt_sig_fail + 1;
  errors = r.errors ++ (e ∷ []);
}

unfoldable pub note_hash : Bool → VerificationReport → VerificationReport
note_hash true r = record r { receipt_hash_ok = r.receipt_hash_ok + 1 }
note_hash false r = record r {
  receipt_hash_fail = r.receipt_hash_fail + 1;
  errors = r.errors ++ (hash_mismatch ∷ []);
}

unfoldable pub note_check : Check → VerificationReport → VerificationReport
note_check valid r = record r { receipt_sig_ok = r.receipt_sig_ok + 1 }
note_check invalid r = sig_failed invalid_signature r
note_check failed r = sig_failed signature_error r

module _ (sha256 : Bytes → Bytes) (check : Str → Str → Bytes → Check) where
  -- The signature of a body under the key that its `kid` selects.
  unfoldable pub check_signature :
      Option Sig → Dict Jwk → Bytes → VerificationReport → VerificationReport
  check_signature sig keys b r = elim (resolve_key (kid_or_empty sig) keys) [
    | none ↦ sig_failed no_public_key r
    | some jwk ↦ elim jwk.x [
      | none ↦ sig_failed signature_error r
      | some x ↦ note_check (check x (value_or_empty sig) b) r
    ]
  ]

  unfoldable pub check_receipt : Dict Jwk → Envelope → VerificationReport → VerificationReport
  check_receipt keys e r = elim (canonicalize (Value.dict (body_or_empty e.body))) [
    | err _ ↦ record r {
      receipt_hash_fail = r.receipt_hash_fail + 1;
      errors = r.errors ++ (canonicalization_failed ∷ []);
    }
    | ok b ↦
        check_signature e.sig keys b
          (note_hash (str_eq (receipt_hash_of sha256 b) (text_or_empty e.receipt_hash)) r)
  ]

  unfoldable pub check_receipts : Dict Jwk → List Envelope → VerificationReport → VerificationReport
  check_receipts keys [] r = r
  check_receipts keys (e ∷ es) r = check_receipts keys es (check_receipt keys e r)

  -- `verify_receipt_signatures`
  unfoldable pub verify_receipt_signatures : AuditPacket → VerificationReport → VerificationReport
  verify_receipt_signatures p r = check_receipts p.public_keys p.receipts r
