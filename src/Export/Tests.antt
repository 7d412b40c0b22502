-- ===== src/Export/Tests.antt =====
-- Instances of the theorems on the export of gateway/api.py and on gateway/audit_packet_verifier.py:
-- the chain of one receipt, and one of three receipts of two agents.
use agent_authorization_gate.Base.{
  ◌≡◌, ◌≢◌, ◌+◌, refl, true, false, Option, none, some, List, [], ◌∷◌, ok, Str, codes, str_eq,
  str_ne, if◌then◌else◌, hex, All, from_hex, length, remove_prefix,
}
use agent_authorization_gate.Packet.{
  is_truthy, passed, VerificationReport, AuditPacket, RpcAnswer, rpc_failed, resolve_key,
}
use agent_authorization_gate.Fixtures.{toy_hash, toy_hash-IsDigest}
use agent_authorization_gate.Verify.Tests.{
  echo, echo_check, echo-Signs, request, start, first, Issued-once, call,
}
use agent_authorization_gate.Export.{
  other_agent, Query, packet_of, get_audit_packet, select, before_start, after_end, collect_keys,
  collect_proofs,
}
use agent_authorization_gate.Packet.Tallies.{canonical_bodies, all_counted}
use agent_authorization_gate.Export.Verifies.{export_verifies}
use agent_authorization_gate.Merkle.Leaves.{IsHex}
use agent_authorization_gate.Receipts.{
  sign_decision, Receipt, ReceiptChain, sign_body, body_dict, envelope_dict,
}
use agent_authorization_gate.Packet.Verifier.{verify_audit_packet}
use agent_authorization_gate.Canonical.{
  canonicalize, serialize, insert_pair, encode_utf8, compare_keys_jcs, serialize_string,
  serialize_char,
}
use agent_authorization_gate.Export.Filtered.{for_agent, filtered_packet_fails}
use agent_authorization_gate.Export.Selected.{stored_with}
use agent_authorization_gate.Verify.Accepted.{signer}
use agent_authorization_gate.Base.Int.{show_nat, int_of_str}
use agent_authorization_gate.Verify.{same_text, get, to_int, slice, is_text}
use agent_authorization_gate.Packet.Links.{
  seq_of, verify_chain_continuity, sort_by_seq, place, le_int, check_sorted, check_links, note_link,
  chain_skip, chain_good, chain_bad,
}
use agent_authorization_gate.Packet.Signatures.{
  verify_receipt_signatures, check_receipts, check_receipt, check_signature, note_hash, note_check,
}
use agent_authorization_gate.Base.Dict.{insert}
use agent_authorization_gate.Packet.Proofs.{verify_inclusion_proofs, check_inclusions}

abbrev no_rpc : Str → Str → RpcAnswer
no_rpc url tx = rpc_failed

abbrev everything : Query
everything = record { start_seq = none; end_seq = none; agent_id = none }

abbrev logged : List Str
logged = codes "00ff" ∷ codes "a1" ∷ []

logged-IsHex : All IsHex logged
unfolding from_hex
logged-IsHex = ((_, refl), ((_, refl), tt))

abbrev anyone : Receipt → Option Str
anyone r = none

abbrev packet : AuditPacket
packet = packet_of (
    get_audit_packet toy_hash everything (stored_with toy_hash echo anyone (first.0 ∷ [])) [] logged
      [] (codes "gw") (signer (codes "gw") (codes "k")))

export_verifies_example :
    (r : VerificationReport) × (verify_audit_packet toy_hash echo_check no_rpc false none packet
      ≡ ok r)
    × (passed r ≡ true)
export_verifies_example =
    export_verifies toy_hash toy_hash-IsDigest echo echo_check (codes "k") echo-Signs (codes "t")
      (codes "gw") first.1 (first.0 ∷ []) anyone everything [] logged [] no_rpc none refl
      logged-IsHex (Issued-once first)

abbrev Verified : Type 0
Verified =
    (r : VerificationReport) × (verify_audit_packet toy_hash echo_check no_rpc false none packet
      ≡ ok r)

verified : Verified
verified =
    let (r, h, pass) =
      export_verifies toy_hash toy_hash-IsDigest echo echo_check (codes "k") echo-Signs (codes "t")
        (codes "gw") first.1 (first.0 ∷ []) anyone everything [] logged [] no_rpc none refl
        logged-IsHex (Issued-once first) in
    (r, h)

all_counted_example :
    (verified.0.receipt_hash_ok + verified.0.receipt_hash_fail ≡ length packet.receipts)
    × (verified.0.receipt_sig_ok + verified.0.receipt_sig_fail
        ≡ canonical_bodies toy_hash echo_check packet.receipts)
    × (verified.0.chain_links_ok + verified.0.chain_links_fail + verified.0.chain_links_skip
        ≡ length packet.receipts)
    × (verified.0.inclusion_ok + verified.0.inclusion_fail ≡ length packet.inclusion_proofs)
    × (verified.0.anchor_ok + verified.0.anchor_fail + verified.0.anchor_skip
        ≡ length packet.anchor_proofs)
all_counted_example = all_counted toy_hash echo_check no_rpc false none packet verified.0 verified.1

-- A second and a third receipt, and the agent of each by its number.
abbrev Later : ReceiptChain → Type 0
Later c = (r : Receipt) × (d : ReceiptChain) × (call none c ≡ (ok r, d))

second : Later first.1
unfolding first sign_decision sign_body canonicalize serialize insert_pair encode_utf8
    compare_keys_jcs serialize_string serialize_char show_nat body_dict hex
second = (_, _, refl)

third : Later second.1
unfolding first second sign_decision sign_body canonicalize serialize insert_pair encode_utf8
    compare_keys_jcs serialize_string serialize_char show_nat body_dict hex
third = (_, _, refl)

abbrev agent_of : Receipt → Option Str
agent_of r = if str_eq r.seq (codes "2") then some (codes "b") else some (codes "a")

abbrev filtered : AuditPacket
filtered = packet_of (
    get_audit_packet toy_hash (for_agent (codes "a"))
      (stored_with toy_hash echo agent_of (first.0 ∷ second.0 ∷ third.0 ∷ [])) [] logged []
      (codes "gw") (signer (codes "gw") (codes "k")))

different : first.0.receipt_hash ≢ second.0.receipt_hash
unfolding first second str_eq hex
different = str_ne _ _ refl

of_first : other_agent (some (codes "a")) (agent_of first.0) ≡ false
unfolding first str_eq other_agent same_text
of_first = refl

of_second : other_agent (some (codes "a")) (agent_of second.0) ≡ true
unfolding second str_eq other_agent same_text
of_second = refl

of_third : other_agent (some (codes "a")) (agent_of third.0) ≡ false
unfolding third str_eq other_agent same_text
of_third = refl

abbrev Refused : Type 0
Refused =
    (r : VerificationReport) × (verify_audit_packet toy_hash echo_check no_rpc false none filtered
      ≡ ok r)

refused : Refused
unfolding first second third verify_audit_packet get_audit_packet select seq_of get is_truthy to_int
    int_of_str before_start after_end other_agent same_text str_eq envelope_dict body_dict
    verify_receipt_signatures check_receipts check_receipt check_signature resolve_key insert
    collect_keys canonicalize serialize insert_pair encode_utf8 compare_keys_jcs serialize_string
    serialize_char hex note_hash note_check verify_chain_continuity sort_by_seq place le_int
    check_sorted check_links note_link chain_skip chain_good chain_bad slice is_text
    verify_inclusion_proofs check_inclusions collect_proofs remove_prefix sign_decision sign_body
    show_nat
refused = (_, refl)

filtered_packet_fails_example : passed refused.0 ≡ false
filtered_packet_fails_example =
    filtered_packet_fails toy_hash echo echo_check agent_of (codes "a") start first.1 second.1
      third.1 first.0 second.0 third.0 (codes "now") (codes "now") (codes "now") (request none)
      (request none) (request none) [] logged [] (codes "gw") (signer (codes "gw") (codes "k"))
      no_rpc none refused.0 first.2 second.2 third.2 of_first of_second of_third different refused.1
