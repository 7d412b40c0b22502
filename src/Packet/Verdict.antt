-- ===== src/Packet/Verdict.antt =====
-- The verdict of gateway/audit_packet_verifier.py on a whole packet.
use agent_authorization_gate.Base.{Bool, Option, List, Str, Bytes, All}
use agent_authorization_gate.Verify.{Check}
use agent_authorization_gate.Packet.{RpcAnswer, AuditPacket, ℤ, Envelope}
use agent_authorization_gate.Packet.Passing.{Genuine}
use agent_authorization_gate.Packet.Chained.{ChainedSorted}
use agent_authorization_gate.Packet.Checked.{AnchorsHold, CountsHold}
use agent_authorization_gate.Packet.Ordered.{InOrder}
use agent_authorization_gate.Packet.Walks.{LeadsToRoot}

module _ (sha256 : Bytes → Bytes) (check : Str → Str → Bytes → Check) where
  -- What a packet is that passes.
  abbrev pub Sound : (Str → Str → RpcAnswer) → Bool → Option Str → AuditPacket → Type 0
  Sound rpc onchain url p =
      All (Genuine sha256 check p.public_keys) p.receipts
      × ((sorted : List (ℤ × Envelope)) × InOrder p.receipts sorted × ChainedSorted sorted)
      × All (LeadsToRoot sha256) p.inclusion_proofs
      × AnchorsHold rpc onchain url p.anchor_proofs
      × CountsHold p
