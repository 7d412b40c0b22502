-- ===== src/Packet/Verifier.antt =====
-- `verify_audit_packet` of gateway/audit_packet_verifier.py.
use agent_authorization_gate.Base.{Bool, Option, Result, ok, ◌>>=◌, Str, Bytes}
use agent_authorization_gate.Verify.{Raised, Check}
use agent_authorization_gate.Packet.{VerificationReport, new_report, AuditPacket, RpcAnswer}
use agent_authorization_gate.Packet.Signatures.{verify_receipt_signatures}
use agent_authorization_gate.Packet.Links.{verify_chain_continuity}
use agent_authorization_gate.Packet.Proofs.{verify_inclusion_proofs}
use agent_authorization_gate.Packet.Crosscheck.{verify_metadata, anchor_step}

module _ (sha256 : Bytes → Bytes) (check : Str → Str → Bytes → Check) where
  -- `verify_audit_packet`
  unfoldable pub verify_audit_packet :
      (Str → Str → RpcAnswer) → Bool → Option Str → AuditPacket → Result Raised VerificationReport
  verify_audit_packet rpc onchain url p = do
    r ← verify_chain_continuity p (verify_receipt_signatures sha256 check p new_report)
    r' ← verify_inclusion_proofs sha256 p r
    ok (verify_metadata p (anchor_step rpc onchain url p r'))
