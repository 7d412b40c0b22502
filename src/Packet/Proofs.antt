-- ===== src/Packet/Proofs.antt =====
-- Step 3 of gateway/audit_packet_verifier.py: the Merkle inclusion proofs.
use agent_authorization_gate.Base.{
  ◌+◌, Bool, true, false, List, [], ◌∷◌, ◌++◌, Result, ok, err, ◌>>=◌, Bytes, codes, str_eq,
  remove_prefix,
}
use agent_authorization_gate.Merkle.{recompute_root}
use agent_authorization_gate.Verify.{Raised, value_error}
use agent_authorization_gate.Packet.{
  root_mismatch, VerificationReport, ProofData, AuditPacket, text_or_empty,
}

module _ (sha256 : Bytes → Bytes) where
  unfoldable pub note_root : Bool → VerificationReport → VerificationReport
  note_root true r = record r { inclusion_ok = r.inclusion_ok + 1 }
  note_root false r = record r {
    inclusion_fail = r.inclusion_fail + 1;
    errors = r.errors ++ (root_mismatch ∷ []);
  }

  -- The walk of one proof; hexadecimal digits that are none raise a ValueError.
  unfoldable pub check_inclusion : ProofData → VerificationReport → Result Raised VerificationReport
  check_inclusion d r =
      elim (recompute_root sha256 (remove_prefix (codes "sha256:") d.receipt_hash) d.proof) [
        | err _ ↦ err value_error
        | ok root ↦ ok (note_root (str_eq root (text_or_empty d.merkle_root)) r)
      ]

  unfoldable pub check_inclusions :
      List ProofData → VerificationReport → Result Raised VerificationReport
  check_inclusions [] r = ok r
  check_inclusions (d ∷ ds) r = do r' ← check_inclusion d r; check_inclusions ds r'

  -- `verify_inclusion_proofs`
  unfoldable pub verify_inclusion_proofs :
      AuditPacket → VerificationReport → Result Raised VerificationReport
  verify_inclusion_proofs p r = check_inclusions p.inclusion_proofs r
