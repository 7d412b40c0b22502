-- ===== src/Packet/Stages.antt =====
-- What the steps of gateway/audit_packet_verifier.py ask of a packet.
use agent_authorization_gate.Base.{
  ◌≡◌, ◌↔◌, refl, sym, ap, ◌∙◌, Bool, true, Option, List, ok, >>=-ok, Str, Bytes, All, arith,
}
use agent_authorization_gate.Verify.{Check}
use agent_authorization_gate.Packet.{
  VerificationReport, total_failures, passed, RpcAnswer, AuditPacket, ℤ, Envelope, new_report,
}
use agent_authorization_gate.Packet.Verifier.{verify_audit_packet}
use agent_authorization_gate.Packet.Signatures.{verify_receipt_signatures, check_receipts}
use agent_authorization_gate.Packet.Links.{verify_chain_continuity, sort_by_seq}
use agent_authorization_gate.Packet.Passing.{Genuine, Passes, receipts_from, receipts_to}
use agent_authorization_gate.Packet.Proofs.{verify_inclusion_proofs}
use agent_authorization_gate.Packet.Crosscheck.{verify_metadata, anchor_step}
use agent_authorization_gate.Packet.Chained.{ChainedSorted, sorted_from, sorted_to, sorted_returns}
use agent_authorization_gate.Packet.Checked.{
  Included, AnchorsHold, metadata_to, CountsHold, anchor_step_to, inclusions_to, inclusions_from,
  anchor_step_from, metadata_from, inclusions_return,
}

summary_iff : (r : VerificationReport) → (total_failures r ≡ 0) ↔ (passed r ≡ true)
unfolding total_failures passed
summary_iff r = ground arith

module _ (sha256 : Bytes → Bytes) (check : Str → Str → Bytes → Check) where
  -- What the steps look for, by the functions that they call.
  abbrev pub StepsHold : (Str → Str → RpcAnswer) → Bool → Option Str → AuditPacket → Type 0
  StepsHold rpc onchain url p =
      All (Genuine sha256 check p.public_keys) p.receipts
      × ((sorted : List (ℤ × Envelope)) × (sort_by_seq p.receipts ≡ ok sorted)
          × ChainedSorted sorted)
      × All (Included sha256) p.inclusion_proofs
      × AnchorsHold rpc onchain url p.anchor_proofs
      × CountsHold p

  pub passes_to :
      (rpc : Str → Str → RpcAnswer) (onchain : Bool) (url : Option Str) (p : AuditPacket)
      (r : VerificationReport)
      → verify_audit_packet sha256 check rpc onchain url p ≡ ok r
      → passed r ≡ true
      → StepsHold rpc onchain url p
  unfolding verify_audit_packet verify_receipt_signatures verify_chain_continuity
      verify_inclusion_proofs
  passes_to rpc onchain url p r h pass =
      let (chained, h1, h2) = >>=-ok (verify_chain_continuity p _) _ h in
      let (included, h3, h4) = >>=-ok (verify_inclusion_proofs sha256 p chained) _ h2 in
      let (sorted, h5, h6) = >>=-ok (sort_by_seq p.receipts) _ h1 in
      let last : verify_metadata p (anchor_step rpc onchain url p included) ≡ r = cc h4 in
      let (counts, p1) = metadata_to p _ (ap passed last ∙ pass) in
      let (anchors, p2) = anchor_step_to rpc onchain url p included p1 in
      let (proofs, p3) = inclusions_to sha256 p.inclusion_proofs chained included h3 p2 in
      let (links, p4) = sorted_to sorted _ chained h6 p3 in
      let (genuine, p5) = receipts_to sha256 check p.public_keys p.receipts new_report p4 in
      (genuine, (sorted, h5, links), proofs, anchors, counts)

  passes_from :
      (rpc : Str → Str → RpcAnswer) (onchain : Bool) (url : Option Str) (p : AuditPacket)
      (r : VerificationReport)
      → verify_audit_packet sha256 check rpc onchain url p ≡ ok r
      → StepsHold rpc onchain url p
      → passed r ≡ true
  unfolding verify_audit_packet verify_receipt_signatures verify_chain_continuity
      verify_inclusion_proofs
  passes_from rpc onchain url p r h (genuine, (sorted, sorts, links), proofs, anchors, counts) =
      let (chained, h1, h2) = >>=-ok (verify_chain_continuity p _) _ h in
      let (included, h3, h4) = >>=-ok (verify_inclusion_proofs sha256 p chained) _ h2 in
      let (sorted', h5, h6) = >>=-ok (sort_by_seq p.receipts) _ h1 in
      let same : sorted' ≡ sorted = cc (h5, sorts) in
      let last : verify_metadata p (anchor_step rpc onchain url p included) ≡ r = cc h4 in
      let fresh : Passes new_report = unfold passed in refl in
      let p5 = receipts_from sha256 check p.public_keys p.receipts new_report genuine fresh in
      let p4 = sorted_from sorted _ chained (rw same at h6) links p5 in
      let p3 = inclusions_from sha256 p.inclusion_proofs chained included h3 proofs p4 in
      let p2 = anchor_step_from rpc onchain url p included anchors p3 in
      sym (ap passed last) ∙ metadata_from p _ counts p2

  returns_from :
      (rpc : Str → Str → RpcAnswer) (onchain : Bool) (url : Option Str) (p : AuditPacket)
      → StepsHold rpc onchain url p
      → (r : VerificationReport) × (verify_audit_packet sha256 check rpc onchain url p ≡ ok r)
  unfolding verify_audit_packet verify_receipt_signatures verify_chain_continuity
      verify_inclusion_proofs
  returns_from rpc onchain url p (genuine, (sorted, sorts, links), proofs, anchors, counts) =
      let first = check_receipts sha256 check p.public_keys p.receipts new_report in
      let (chained, c) = sorted_returns sorted first links in
      let (included, i) = inclusions_return sha256 p.inclusion_proofs chained proofs in
      (verify_metadata p (anchor_step rpc onchain url p included), rw sorts (rw c (rw i refl)))

  pub steps_passed :
      (rpc : Str → Str → RpcAnswer) (onchain : Bool) (url : Option Str) (p : AuditPacket)
      → ((r : VerificationReport) × (verify_audit_packet sha256 check rpc onchain url p ≡ ok r)
          × (passed r ≡ true)
          × (total_failures r ≡ 0))
        ↔ StepsHold rpc onchain url p
  steps_passed rpc onchain url p = (
    λ (r, h, pass, _). passes_to rpc onchain url p r h pass,
    λ sound.
        let (r, h) = returns_from rpc onchain url p sound in
        let pass = passes_from rpc onchain url p r h sound in (r, h, pass, (summary_iff r).1 pass),
  )
