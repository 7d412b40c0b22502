-- ===== src/Export.antt =====
-- `get_audit_packet` of gateway/api.py: the export of an audit packet. The stored chain, the log's
-- hashes, the anchor records and the stored keys are what the store and the log return. The audit
-- reports, the policy snapshot and the time stamps, which the offline verifier does not read, are left
-- out.
pub mod Selected
pub mod Contents
pub mod Genuine
pub mod Verifies
pub mod Filtered
pub mod Tests
use agent_authorization_gate.Base.{
  ℕ, Bool, true, false, not, ◌&&◌, ◌||◌, Option, none, some, List, [], ◌∷◌, map, any, ok, err, Str,
  Bytes, codes, str_eq, if◌then◌else◌, length, filter, remove_prefix,
}
use agent_authorization_gate.Base.Int.{ℤ, pos}
use agent_authorization_gate.Base.Dict.{Dict, insert}
use agent_authorization_gate.Merkle.{ProofStep, InclusionProof, compute_inclusion_proof}
use agent_authorization_gate.Receipts.{Envelope}
use agent_authorization_gate.Verify.{Jwk, is_text, same_text}
use agent_authorization_gate.Packet.{
  AuditPacket, ProofData, Anchor, Metadata, text_or_empty, is_truthy,
}
use agent_authorization_gate.Packet.Links.{seq_of, le_int, place, prev_of}
use agent_authorization_gate.Packet.Crosscheck.{decisions}

-- A receipt of the stored chain, with the `agent_id` of its `_meta`.
pub record StoredEnvelope : Type 0 where
  pub envelope : Envelope
  pub agent_id : Option Str

-- The query's parameters.
pub record Query : Type 0 where
  pub start_seq : Option ℕ
  pub end_seq : Option ℕ
  pub agent_id : Option Str

-- An anchor record with its `artifact_seq_range`.
pub record RangedAnchor : Type 0 where
  pub anchor : Anchor
  pub artifact_seq_range : List ℤ

pub record ExportedProof : Type 0 where
  pub merkle_root : Str
  pub leaf_index : ℕ
  pub proof : List ProofStep
  pub anchor_tx_hash : Option Str

pub record Export : Type 0 where
  pub receipts : List Envelope
  pub anchor_proofs : List RangedAnchor
  pub inclusion_proofs : Dict ExportedProof
  pub public_keys : Dict Jwk
  pub metadata : Metadata
  pub chain_integrity : Bool

-- `start_seq is not None and seq < start_seq`
unfoldable pub before_start : Option ℕ → ℤ → Bool
before_start none n = false
before_start (some start) n = not (le_int (pos start) n)

-- `end_seq is not None and seq > end_seq`
unfoldable pub after_end : Option ℕ → ℤ → Bool
after_end none n = false
after_end (some last) n = not (le_int n (pos last))

-- `agent_id and meta.get("agent_id") != agent_id`
unfoldable pub other_agent : Option Str → Option Str → Bool
other_agent none of_meta = false
other_agent (some []) of_meta = false
other_agent (some (c ∷ s)) of_meta = not (same_text of_meta (some (c ∷ s)))

-- The receipts that pass the filters, each with its number; one without a number is skipped.
unfoldable pub select : Query → List StoredEnvelope → List (ℤ × Envelope)
select q [] = []
select q (s ∷ stored) =
    let rest = select q stored in
    elim (seq_of s.envelope) [
      | err _ ↦ rest
      | ok n ↦
          if before_start q.start_seq n
            || after_end q.end_seq n
            || other_agent q.agent_id s.agent_id
          then rest
          else (n, s.envelope) ∷ rest
    ]

abbrev pub envelopes : List (ℤ × Envelope) → List Envelope
envelopes [] = []
envelopes ((n, e) ∷ rest) = e ∷ envelopes rest

-- The number of the last receipt, from that of the first one on.
abbrev last_seq : ℤ → List (ℤ × Envelope) → ℤ
last_seq n [] = n
last_seq n ((m, e) ∷ rest) = last_seq m rest

-- Whether the anchor's range meets that of the receipts, or either has none.
unfoldable pub overlaps : List (ℤ × Envelope) → List ℤ → Bool
overlaps rs [] = true
overlaps rs (_ ∷ []) = true
overlaps [] (a ∷ b ∷ _) = true
overlaps ((n, e) ∷ rest) (a ∷ b ∷ _) = le_int n b && le_int a (last_seq n rest)

abbrev pub covering : List (ℤ × Envelope) → List RangedAnchor → List RangedAnchor
covering rs anchors = filter (λ a. overlaps rs a.artifact_seq_range) anchors

-- The transaction of the first anchor with this root.
unfoldable pub anchor_tx : Str → List RangedAnchor → Option Str
anchor_tx root [] = none
anchor_tx root (a ∷ rest) =
    if same_text a.anchor.merkle_root (some root) then a.anchor.tx_hash else anchor_tx root rest

abbrev pub label : Str → Str → Str
label own kid = if str_eq kid own then codes "gateway" else kid

-- The stored keys that have a `kid`, under their labels.
unfoldable pub collect_keys : Str → List Jwk → Dict Jwk → Dict Jwk
collect_keys own [] d = d
collect_keys own (k ∷ keys) d =
    collect_keys own keys
      (if str_eq (text_or_empty k.kid) [] then d else insert (label own (text_or_empty k.kid)) k d)

-- `chain_integrity`: the links of the receipts in the order of `seq`.
unfoldable pub sort_selected : List (ℤ × Envelope) → List (ℤ × Envelope)
sort_selected [] = []
sort_selected ((n, e) ∷ rest) = place n e (sort_selected rest)

unfoldable pub intact : Str → List (ℤ × Envelope) → Bool
intact prev_hash [] = true
intact prev_hash ((_, e) ∷ rest) =
    if is_truthy (prev_of e) && not (str_eq prev_hash []) && not (is_text (prev_of e) prev_hash)
    then false
    else intact (text_or_empty e.receipt_hash) rest

unfoldable pub chain_intact : List (ℤ × Envelope) → Bool
chain_intact [] = true
chain_intact ((_, e) ∷ rest) = intact (text_or_empty e.receipt_hash) rest

module _ (sha256 : Bytes → Bytes) where
  -- The proofs of the receipts that are in the log; where a call raises, those found so far stay.
  unfoldable pub collect_proofs :
      List Str → List RangedAnchor → List Envelope → Dict ExportedProof → Dict ExportedProof
  collect_proofs hashes anchors [] d = d
  collect_proofs hashes anchors (e ∷ es) d =
      let rh = text_or_empty e.receipt_hash in
      let target = remove_prefix (codes "sha256:") rh in
      let skip = collect_proofs hashes anchors es d in
      if str_eq rh [] || not (any (str_eq target) hashes)
      then skip
      else elim (compute_inclusion_proof sha256 hashes target) [
        | err _ ↦ d
        | ok none ↦ collect_proofs hashes anchors es d
        | ok (some p) ↦ collect_proofs hashes anchors es (
            insert rh
              (record {
                merkle_root = p.root;
                leaf_index = p.leaf_index;
                proof = p.proof;
                anchor_tx_hash = anchor_tx p.root anchors;
              })
              d)
      ]

  -- `get_audit_packet`, with the log's artifact hashes without their prefix, and the gateway's key.
  unfoldable pub get_audit_packet :
      Query → List StoredEnvelope → List RangedAnchor → List Str → List Jwk → Str → Jwk → Export
  get_audit_packet q stored anchors hashes stored_keys own gw_key =
      let selected = select q stored in
      let receipts = envelopes selected in
      let anchor_proofs = covering selected anchors in
      record {
        receipts = receipts;
        anchor_proofs = anchor_proofs;
        inclusion_proofs = collect_proofs hashes anchor_proofs receipts [];
        public_keys = insert (codes "gateway") gw_key (collect_keys own stored_keys []);
        metadata = record {
          receipt_count = some (length receipts);
          approval_count = some (decisions (codes "approve") receipts);
          denial_count = some (decisions (codes "deny") receipts);
          anchor_count = some (length anchor_proofs);
        };
        chain_integrity = chain_intact (sort_selected selected);
      }

-- What the offline verifier reads of the exported document.
abbrev pub proof_data : Dict ExportedProof → List ProofData
proof_data [] = []
proof_data ((rh, p) ∷ d) =
    record { receipt_hash = rh; merkle_root = some p.merkle_root; proof = p.proof } ∷ proof_data d

abbrev pub packet_of : Export → AuditPacket
packet_of x = record {
  receipts = x.receipts;
  anchor_proofs = map (λ a. a.anchor) x.anchor_proofs;
  inclusion_proofs = proof_data x.inclusion_proofs;
  public_keys = x.public_keys;
  metadata = x.metadata;
}
