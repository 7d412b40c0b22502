-- ===== src/Packet/Crosscheck.antt =====
-- Steps 4 and 5 of gateway/audit_packet_verifier.py: the anchors and the counts of the metadata.
use agent_authorization_gate.Base.{
  ℕ, ◌+◌, Bool, true, false, Option, none, some, List, [], ◌∷◌, ◌++◌, Str, codes, str_eq,
  if◌then◌else◌, ◌==◌, length, filter, remove_prefix, contains_text,
}
use agent_authorization_gate.Receipts.{Envelope}
use agent_authorization_gate.Verify.{get, is_text}
use agent_authorization_gate.Packet.{
  PacketError, anchor_not_found, root_not_in_calldata, rpc_error, receipt_count_wrong,
  approval_count_wrong, denial_count_wrong, anchor_count_wrong, VerificationReport, Anchor,
  AuditPacket, RpcAnswer, transaction, not_found, rpc_failed, text_or_empty, body_or_empty,
}

-- One anchor against the chain; a root that is the empty text is in any calldata.
unfoldable pub note_answer : Str → RpcAnswer → VerificationReport → VerificationReport
note_answer expected (transaction calldata) r =
    if contains_text (remove_prefix (codes "sha256:") expected) calldata
    then record r { anchor_ok = r.anchor_ok + 1 }
    else record r {
      anchor_fail = r.anchor_fail + 1;
      errors = r.errors ++ (root_not_in_calldata ∷ []);
    }
note_answer expected not_found r = record r {
  anchor_fail = r.anchor_fail + 1;
  errors = r.errors ++ (anchor_not_found ∷ []);
}
note_answer expected rpc_failed r = record r {
  anchor_fail = r.anchor_fail + 1;
  errors = r.errors ++ (rpc_error ∷ []);
}

unfoldable pub check_anchors :
    (Str → RpcAnswer) → List Anchor → VerificationReport → VerificationReport
check_anchors answer [] r = r
check_anchors answer (a ∷ rest) r = check_anchors answer rest (
    if str_eq (text_or_empty a.tx_hash) []
    then record r { anchor_skip = r.anchor_skip + 1 }
    else note_answer (text_or_empty a.merkle_root) (answer (text_or_empty a.tx_hash)) r)

-- `verify_onchain_anchors`
unfoldable pub verify_onchain_anchors :
    (Str → Str → RpcAnswer) → AuditPacket → Option Str → VerificationReport → VerificationReport
verify_onchain_anchors rpc p none r = record r {
  anchor_skip = r.anchor_skip + length p.anchor_proofs;
}
verify_onchain_anchors rpc p (some []) r = record r {
  anchor_skip = r.anchor_skip + length p.anchor_proofs;
}
verify_onchain_anchors rpc p (some (c ∷ url)) r = check_anchors (rpc (c ∷ url)) p.anchor_proofs r

-- `sum(1 for r in receipts if r.get("body", {}).get("decision") == decision)`
unfoldable pub is_decision : Str → Envelope → Bool
is_decision d e = elim (get (codes "decision") (body_or_empty e.body)) [
  | none ↦ false
  | some v ↦ is_text v d
]

abbrev pub decisions : Str → List Envelope → ℕ
decisions d es = length (filter (is_decision d) es)

abbrev pub same_count : Option ℕ → ℕ → Bool
same_count none n = false
same_count (some m) n = m == n

unfoldable pub note_count : PacketError → Bool → VerificationReport → VerificationReport
note_count e true r = r
note_count e false r = record r { metadata_ok = false; errors = r.errors ++ (e ∷ []) }

-- `verify_metadata`
unfoldable pub verify_metadata : AuditPacket → VerificationReport → VerificationReport
verify_metadata p r =
    let m = p.metadata in
    note_count anchor_count_wrong (same_count m.anchor_count (length p.anchor_proofs)) (
      note_count denial_count_wrong
        (same_count m.denial_count (decisions (codes "deny") p.receipts))
        (note_count approval_count_wrong
          (same_count m.approval_count (decisions (codes "approve") p.receipts))
          (note_count receipt_count_wrong (same_count m.receipt_count (length p.receipts)) r)))

-- `rpc_url or BASE_MAINNET_RPC`
abbrev pub url_or_default : Option Str → Str
url_or_default none = codes "https://mainnet.base.org"
url_or_default (some []) = codes "https://mainnet.base.org"
url_or_default (some (c ∷ url)) = c ∷ url

-- Step 4, which is skipped unless it is asked for.
unfoldable pub anchor_step :
    (Str → Str → RpcAnswer)
    → Bool
    → Option Str
    → AuditPacket
    → VerificationReport
    → VerificationReport
anchor_step rpc true url p r = verify_onchain_anchors rpc p (some (url_or_default url)) r
anchor_step rpc false url p r = record r { anchor_skip = r.anchor_skip + length p.anchor_proofs }
