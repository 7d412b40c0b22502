-- ===== src/Export/Verifies.antt =====
-- A packet that gateway/api.py exports against gateway/audit_packet_verifier.py.
use agent_authorization_gate.Base.{
  ◌≡◌, refl, sym, ap, Bool, true, false, not, ◌||◌, Bool-cases, inl, inr, Option, none, some, List,
  [], ◌∷◌, ok, Str, Bytes, All, arith, codes, any, str_eq, str_eq_iff, Elem, here, there,
  remove_prefix, length-map,
}
use agent_authorization_gate.Base.Dict.{Dict, insert}
use agent_authorization_gate.Verify.{Check, Jwk}
use agent_authorization_gate.Verify.Accepted.{Signs, signer}
use agent_authorization_gate.Receipts.Issue.{Issued}
use agent_authorization_gate.Packet.{text_or_empty, passed, RpcAnswer, VerificationReport}
use agent_authorization_gate.Merkle.Digest.{IsDigest}
use agent_authorization_gate.Export.{
  get_audit_packet, collect_proofs, ExportedProof, RangedAnchor, proof_data, Query, packet_of,
  covering,
}
use agent_authorization_gate.Packet.Checked.{Included}
use agent_authorization_gate.Receipts.{ReceiptChain, Receipt, Envelope, new_chain}
use agent_authorization_gate.Merkle.Leaves.{IsHex}
use agent_authorization_gate.Merkle.Completeness.{inclusion_proof_verifies}
use agent_authorization_gate.Packet.Verifier.{verify_audit_packet}
use agent_authorization_gate.Export.Selected.{stored_with, chosen, chosen-sorted}
use agent_authorization_gate.Packet.Stages.{steps_passed}
use agent_authorization_gate.Export.Genuine.{chosen-Genuine, resolve-exported}
use agent_authorization_gate.Export.Contents.{chosen-Chained}

Elem-any : (x : Str) (xs : List Str) → any (str_eq x) xs ≡ true → Elem x xs
Elem-any x [] h = cc
Elem-any x (y ∷ ys) h = elim (Bool-cases (str_eq x y)) [
  | inl same ↦ here ((str_eq_iff x y).0 same)
  | inr other ↦ there (Elem-any x ys (rw other at h))
]

or_false : (a b : Bool) → (a || not b) ≡ false → b ≡ true
or_false a b h = ground arith

module _ (sha256 : Bytes → Bytes) (digest : IsDigest sha256) where
  insert-Included :
      (rh : Str) (p : ExportedProof) (d : Dict ExportedProof)
      → Included sha256
          (record { receipt_hash = rh; merkle_root = some p.merkle_root; proof = p.proof })
      → All (Included sha256) (proof_data d)
      → All (Included sha256) (proof_data (insert rh p d))
  unfolding insert
  insert-Included rh p [] i h = (i, tt)
  insert-Included rh p ((j, w) ∷ d) i (first, rest) = elim (Bool-cases (str_eq j rh)) [
    | inl same ↦ let e : j ≡ rh = (str_eq_iff j rh).0 same in rw same (rw (← e) at i, rest)
    | inr other ↦ rw other (first, insert-Included rh p d i rest)
  ]

  -- Every proof that the export collects leads to the root that it states.
  collect_proofs-Included :
      (hashes : List Str) (anchors : List RangedAnchor) (es : List Envelope)
      (d : Dict ExportedProof)
      → All IsHex hashes
      → All (Included sha256) (proof_data d)
      → All (Included sha256) (proof_data (collect_proofs sha256 hashes anchors es d))
  unfolding collect_proofs
  collect_proofs-Included hashes anchors [] d hs h = h
  collect_proofs-Included hashes anchors (e ∷ es) d hs h =
      let rh = text_or_empty e.receipt_hash in
      let target = remove_prefix (codes "sha256:") rh in
      elim (Bool-cases (str_eq rh [] || not (any (str_eq target) hashes))) [
        | inl skip ↦ rw skip (collect_proofs-Included hashes anchors es d hs h)
        | inr held ↦
            let m = Elem-any target hashes (or_false _ _ held) in
            let (p, computed, walk, root, named, place, first, size) =
              inclusion_proof_verifies sha256 digest hashes target hs m in
            rw held (
              rw computed
                (collect_proofs-Included hashes anchors es _ hs (insert-Included rh _ d walk h)))
      ]

module _ (sha256 : Bytes → Bytes) (digest : IsDigest sha256) (sign : Bytes → Str)
    (check : Str → Str → Bytes → Check) (x : Str) (signs : Signs sign check x) where
  -- Take a chain of receipts that `sign_decision` issued from a new chain with no call that raised,
  -- any artifact hashes that are hexadecimal, and any anchor records and stored keys. The packet that
  -- `get_audit_packet` exports for any range of `seq`, with no filter by agent, passes the offline
  -- verification without the anchors: the verifier returns a report, and the report has passed.
  pub export_verifies :
      (tenant kid : Str) (d : ReceiptChain) (rs : List Receipt) (agent : Receipt → Option Str)
      (query : Query) (anchors : List RangedAnchor) (hashes : List Str) (keys : List Jwk)
      (rpc : Str → Str → RpcAnswer) (url : Option Str)
      → query.agent_id ≡ none
      → All IsHex hashes
      → Issued sha256 sign (new_chain tenant kid) rs d
      → (r : VerificationReport) × (verify_audit_packet sha256 check rpc false url (
            packet_of (
              get_audit_packet sha256 query
                (stored_with sha256 sign agent rs)
                anchors
                hashes
                keys
                kid
                (signer kid x)))
          ≡ ok r)
        × (passed r ≡ true)
  unfolding get_audit_packet
  export_verifies tenant kid d rs agent query anchors hashes keys rpc url none_asked hs i =
      let all_anchors = covering (chosen sha256 sign agent query rs) anchors in
      let p = packet_of (
        get_audit_packet sha256 query (stored_with sha256 sign agent rs) anchors hashes keys kid
          (signer kid x)) in
      let (r, h, pass, _) = (steps_passed sha256 check rpc false url p).1 (
        chosen-Genuine sha256 sign check x signs _ agent query (resolve-exported kid x keys) i,
        (
          chosen sha256 sign agent query rs,
          chosen-sorted sha256 sign agent query i,
          chosen-Chained sha256 sign agent query none_asked i,
        ),
        collect_proofs-Included sha256 digest hashes all_anchors _ [] hs tt,
        tt,
        (refl, refl, refl, ap some (sym (length-map (λ (a : RangedAnchor). a.anchor) all_anchors))),
      ) in
      (r, h, pass)
