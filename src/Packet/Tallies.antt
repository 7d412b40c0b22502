-- ===== src/Packet/Tallies.antt =====
-- The counters of a report of gateway/audit_packet_verifier.py: no item is left out, none counted twice.
use agent_authorization_gate.Base.{
  ℕ, suc, ◌+◌, ◌≡◌, refl, sym, ap, Bool, true, false, not, ◌||◌, Bool-cases, inl, inr, Option, List,
  [], ◌∷◌, Result-cases, ok, err, >>=-ok, Str, Bytes, codes, arith, length, str_eq, if◌then◌else◌,
  subst, contains_text, remove_prefix, Option-cases,
}
use agent_authorization_gate.Verify.{Check, valid, invalid, failed, Jwk}
use agent_authorization_gate.Packet.Crosscheck.{url_or_default, same_count, decisions}
use agent_authorization_gate.Packet.Checked.{onchain, default-url}
use agent_authorization_gate.Packet.{
  AuditPacket, VerificationReport, PacketError, ℤ, invalid_signature, Envelope, RpcAnswer, Anchor,
  signature_error, transaction, text_or_empty, Value, is_text, genesis_prev_receipt, is_truthy,
  not_found, slice, rpc_failed, canonicalize, Sig, ProofData, body_or_empty, Dict, recompute_root,
  receipt_hash_of, resolve_key, new_report, kid_or_empty, no_public_key, value_or_empty,
  receipt_count_wrong, approval_count_wrong, denial_count_wrong, anchor_count_wrong,
}
use agent_authorization_gate.Packet.Signatures.{
  sig_failed, note_check, note_hash, check_signature, check_receipts, verify_receipt_signatures,
  check_receipt,
}
use agent_authorization_gate.Packet.Links.{
  check_sorted, check_links, sort_by_seq, place, note_link, chain_skip, seq_of, prev_of, chain_good,
  chain_bad, verify_chain_continuity,
}
use agent_authorization_gate.Packet.Crosscheck.{
  note_answer, check_anchors, anchor_step, note_count, verify_metadata,
}
use agent_authorization_gate.Packet.Proofs.{
  check_inclusion, note_root, check_inclusions, verify_inclusion_proofs,
}
use agent_authorization_gate.Packet.Verifier.{verify_audit_packet}

-- From `r` to `r'` this many items were counted: hashes, signatures, links, proofs, anchors.
abbrev pub Adds : ℕ → ℕ → ℕ → ℕ → ℕ → VerificationReport → VerificationReport → Type 0
Adds h s c i a r r' =
    (r'.receipt_hash_ok + r'.receipt_hash_fail ≡ r.receipt_hash_ok + r.receipt_hash_fail + h)
    × (r'.receipt_sig_ok + r'.receipt_sig_fail ≡ r.receipt_sig_ok + r.receipt_sig_fail + s)
    × (r'.chain_links_ok + r'.chain_links_fail + r'.chain_links_skip
        ≡ r.chain_links_ok + r.chain_links_fail + r.chain_links_skip + c)
    × (r'.inclusion_ok + r'.inclusion_fail ≡ r.inclusion_ok + r.inclusion_fail + i)
    × (r'.anchor_ok + r'.anchor_fail + r'.anchor_skip
        ≡ r.anchor_ok + r.anchor_fail + r.anchor_skip + a)

Adds-trans :
    (h s c i a h' s' c' i' a' : ℕ) (r t u : VerificationReport)
    → Adds h s c i a r t
    → Adds h' s' c' i' a' t u
    → Adds (h + h') (s + s') (c + c') (i + i') (a + a') r u
Adds-trans h s c i a h' s' c' i' a' r t u p q = omega arith

-- The same with the sums given.
Adds-add :
    (h s c i a h' s' c' i' a' : ℕ) {t : ℕ} (r u v : VerificationReport)
    → Adds h s c i a r u
    → Adds h' s' c' i' a' u v
    → t ≡ a + a'
    → Adds (h + h') (s + s') (c + c') (i + i') t r v
Adds-add h s c i a h' s' c' i' a' r u v p q e = omega arith

Adds-eq :
    (h s c i a : ℕ) (r t u : VerificationReport) → t ≡ u → Adds h s c i a r t → Adds h s c i a r u
Adds-eq h s c i a r t u e p = subst (λ x. Adds h s c i a r x) e p

sig_failed-Adds : (e : PacketError) (r : VerificationReport) → Adds 0 1 0 0 0 r (sig_failed e r)
unfolding sig_failed
sig_failed-Adds e r = omega arith

note_hash-Adds : (b : Bool) (r : VerificationReport) → Adds 1 0 0 0 0 r (note_hash b r)
unfolding note_hash
note_hash-Adds true r = omega arith
note_hash-Adds false r = omega arith

note_check-Adds : (c : Check) (r : VerificationReport) → Adds 0 1 0 0 0 r (note_check c r)
unfolding note_check
note_check-Adds valid r = omega arith
note_check-Adds invalid r = sig_failed-Adds invalid_signature r
note_check-Adds failed r = sig_failed-Adds signature_error r

note_link-Adds :
    (prev_hash : Str) (v : Value) (r r' : VerificationReport)
    → note_link prev_hash v r ≡ ok r'
    → Adds 0 0 1 0 0 r r'
unfolding note_link chain_skip chain_good chain_bad
note_link-Adds prev_hash v r r' h = elim (Bool-cases (str_eq prev_hash [] || not (is_truthy v))) [
  | inl missing ↦
      let same : chain_skip r ≡ r' = cc (rw missing at h) in
      Adds-eq 0 0 1 0 0 r _ r' same (omega arith)
  | inr present ↦ elim (Bool-cases (is_text v prev_hash)) [
    | inl linked ↦
        let same : chain_good r ≡ r' = cc (rw linked at (rw present at h)) in
        Adds-eq 0 0 1 0 0 r _ r' same (omega arith)
    | inr broken ↦
        let (u, s, e) = >>=-ok (slice v) (λ _. ok (chain_bad r)) (rw broken at (rw present at h)) in
        let same : chain_bad r ≡ r' = cc e in Adds-eq 0 0 1 0 0 r _ r' same (omega arith)
  ]
]

links-Adds :
    (prev_hash : Str) (es : List (ℤ × Envelope)) (r r' : VerificationReport)
    → check_links prev_hash es r ≡ ok r'
    → Adds 0 0 (length es) 0 0 r r'
unfolding check_links
links-Adds prev_hash [] r r' h =
    let same : r ≡ r' = cc in Adds-eq 0 0 0 0 0 r r r' same (omega arith)
links-Adds prev_hash ((n, e) ∷ rest) r r' h =
    let (s, here, more) = >>=-ok (note_link prev_hash (prev_of e) r) _ h in
    let tail = links-Adds (text_or_empty e.receipt_hash) rest s r' more in
    let head = note_link-Adds prev_hash (prev_of e) r s here in omega arith

sorted-Adds :
    (es : List (ℤ × Envelope)) (r r' : VerificationReport)
    → check_sorted es r ≡ ok r'
    → Adds 0 0 (length es) 0 0 r r'
unfolding check_sorted chain_skip chain_good
sorted-Adds [] r r' h = let same : r ≡ r' = cc in Adds-eq 0 0 0 0 0 r r r' same (omega arith)
sorted-Adds ((n, e) ∷ rest) r r' h =
    let tail = links-Adds (text_or_empty e.receipt_hash) rest _ r' h in
    elim (Bool-cases (is_text (prev_of e) genesis_prev_receipt)) [
      | inl genesis ↦ let t = rw genesis at tail in omega arith
      | inr partial ↦ let t = rw partial at tail in omega arith
    ]

length-place :
    (n : ℤ) (e : Envelope) (es : List (ℤ × Envelope)) → length (place n e es) ≡ suc (length es)
unfolding place
length-place n e [] = refl
length-place n e ((m, f) ∷ rest) = ground (arith, length-place n e rest)

length-sort_by_seq :
    (es : List Envelope) (sorted : List (ℤ × Envelope))
    → sort_by_seq es ≡ ok sorted
    → length sorted ≡ length es
unfolding sort_by_seq
length-sort_by_seq [] sorted h = let e : [] ≡ sorted = cc in ap length (sym e)
length-sort_by_seq (e ∷ es) sorted h =
    let (n, h1, h2) = >>=-ok (seq_of e) _ h in
    let (rest, h3, h4) = >>=-ok (sort_by_seq es) _ h2 in
    let same : place n e rest ≡ sorted = cc h4 in
    omega (arith, length-sort_by_seq es rest h3, length-place n e rest, ap length same)

note_answer-Adds :
    (root : Str) (a : RpcAnswer) (r : VerificationReport) → Adds 0 0 0 0 1 r (note_answer root a r)
unfolding note_answer
note_answer-Adds root (transaction calldata) r =
    elim (Bool-cases (contains_text (remove_prefix (codes "sha256:") root) calldata)) [
      | inl held ↦ rw held (omega arith)
      | inr missing ↦ rw missing (omega arith)
    ]
note_answer-Adds root not_found r = omega arith
note_answer-Adds root rpc_failed r = omega arith

anchor-Adds :
    (b : Bool) (root : Str) (answer : RpcAnswer) (r : VerificationReport)
    → Adds 0 0 0 0 1 r
        (if b then record r { anchor_skip = r.anchor_skip + 1 } else note_answer root answer r)
anchor-Adds true root answer r = omega arith
anchor-Adds false root answer r = note_answer-Adds root answer r

anchors-Adds :
    (answer : Str → RpcAnswer) (anchors : List Anchor) (r : VerificationReport)
    → Adds 0 0 0 0 (length anchors) r (check_anchors answer anchors r)
unfolding check_anchors
anchors-Adds answer [] r = omega arith
anchors-Adds answer (a ∷ rest) r =
    let head =
      anchor-Adds (str_eq (text_or_empty a.tx_hash) []) (text_or_empty a.merkle_root)
        (answer (text_or_empty a.tx_hash)) r in
    let next : VerificationReport =
      if str_eq (text_or_empty a.tx_hash) []
      then record r { anchor_skip = r.anchor_skip + 1 }
      else note_answer (text_or_empty a.merkle_root) (answer (text_or_empty a.tx_hash)) r in
    let tail = anchors-Adds answer rest next in
    Adds-add 0 0 0 0 1 0 0 0 0 (length rest) r next (check_anchors answer rest next) head tail
      (omega arith)

anchor_step-Adds :
    (rpc : Str → Str → RpcAnswer) (on : Bool) (url : Option Str) (p : AuditPacket)
    (r : VerificationReport)
    → Adds 0 0 0 0 (length p.anchor_proofs) r (anchor_step rpc on url p r)
unfolding anchor_step
anchor_step-Adds rpc true url p r =
    Adds-eq 0 0 0 0 (length p.anchor_proofs) r _ _
      (sym (onchain rpc (url_or_default url) p r (default-url url)))
      (anchors-Adds (rpc (url_or_default url)) p.anchor_proofs r)
anchor_step-Adds rpc false url p r = omega arith

note_count-Adds :
    (x : PacketError) (b : Bool) (r : VerificationReport) → Adds 0 0 0 0 0 r (note_count x b r)
unfolding note_count
note_count-Adds x true r = omega arith
note_count-Adds x false r = omega arith

metadata-Adds : (p : AuditPacket) (r : VerificationReport) → Adds 0 0 0 0 0 r (verify_metadata p r)
unfolding verify_metadata
metadata-Adds p r =
    let m = p.metadata in
    let r1 = note_count receipt_count_wrong (same_count m.receipt_count (length p.receipts)) r in
    let r2 =
      note_count approval_count_wrong
        (same_count m.approval_count (decisions (codes "approve") p.receipts)) r1 in
    let r3 =
      note_count denial_count_wrong
        (same_count m.denial_count (decisions (codes "deny") p.receipts)) r2 in
    let a = note_count-Adds receipt_count_wrong _ r in
    let b = note_count-Adds approval_count_wrong _ r1 in
    let c = note_count-Adds denial_count_wrong _ r2 in
    let d =
      note_count-Adds anchor_count_wrong (same_count m.anchor_count (length p.anchor_proofs)) r3 in
    Adds-trans 0 0 0 0 0 0 0 0 0 0 r r3 (verify_metadata p r)
      (Adds-trans 0 0 0 0 0 0 0 0 0 0 r r2 r3 (Adds-trans 0 0 0 0 0 0 0 0 0 0 r r1 r2 a b) c) d

module _ (sha256 : Bytes → Bytes) (check : Str → Str → Bytes → Check) where
  signature-Adds :
      (sig : Option Sig) (keys : Dict Jwk) (b : Bytes) (r : VerificationReport)
      → Adds 0 1 0 0 0 r (check_signature sha256 check sig keys b r)
  unfolding check_signature
  signature-Adds sig keys b r = elim (Option-cases (resolve_key (kid_or_empty sig) keys)) [
    | inl missing ↦ rw (missing, check_signature) (sig_failed-Adds no_public_key r)
    | inr (jwk, found) ↦ elim (Option-cases jwk.x) [
      | inl no_x ↦ rw (found, check_signature) (rw no_x (sig_failed-Adds signature_error r))
      | inr (x, has_x) ↦
          rw (found, check_signature)
            (rw has_x (note_check-Adds (check x (value_or_empty sig) b) r))
    ]
  ]

  -- Whether the body canonicalizes, so that its signature is checked.
  abbrev pub canonical_bodies : List Envelope → ℕ
  canonical_bodies [] = 0
  canonical_bodies (e ∷ es) =
      (elim (canonicalize (Value.dict (body_or_empty e.body))) [ err _ ↦ 0 | ok _ ↦ 1 ])
      + canonical_bodies es

  receipts-Adds :
      (keys : Dict Jwk) (es : List Envelope) (r : VerificationReport)
      → Adds (length es) (canonical_bodies es) 0 0 0 r (check_receipts sha256 check keys es r)
  unfolding check_receipts
  receipts-Adds keys [] r = omega arith
  receipts-Adds keys (e ∷ es) r =
      let tail = receipts-Adds keys es (check_receipt sha256 check keys e r) in
      elim (Result-cases (canonicalize (Value.dict (body_or_empty e.body)))) [
        | inr (x, raised) ↦
            let head : Adds 1 0 0 0 0 r (check_receipt sha256 check keys e r) =
              unfold check_receipt in rw (raised, check_receipt) (omega arith) in
            rw (raised, canonical_bodies) (omega arith)
        | inl (b, body) ↦
            let same = str_eq (receipt_hash_of sha256 b) (text_or_empty e.receipt_hash) in
            let hashed = note_hash-Adds same r in
            let signed = signature-Adds e.sig keys b (note_hash same r) in
            let head : Adds 1 1 0 0 0 r (check_receipt sha256 check keys e r) =
              unfold check_receipt in rw (body, check_receipt) (omega arith) in
            rw (body, canonical_bodies) (omega arith)
      ]

  note_root-Adds : (b : Bool) (r : VerificationReport) → Adds 0 0 0 1 0 r (note_root sha256 b r)
  unfolding note_root
  note_root-Adds true r = omega arith
  note_root-Adds false r = omega arith

  inclusion-Adds :
      (d : ProofData) (r r' : VerificationReport)
      → check_inclusion sha256 d r ≡ ok r'
      → Adds 0 0 0 1 0 r r'
  unfolding check_inclusion
  inclusion-Adds d r r' h =
      elim (Result-cases
        (recompute_root sha256 (remove_prefix (codes "sha256:") d.receipt_hash) d.proof)) [
          | inr (x, raised) ↦ cc (rw (raised, check_inclusion) at h)
          | inl (root, walked) ↦
              let same = str_eq root (text_or_empty d.merkle_root) in
              let note : note_root sha256 same r ≡ r' = cc (rw (walked, check_inclusion) at h) in
              Adds-eq 0 0 0 1 0 r _ r' note (note_root-Adds same r)
        ]

  inclusions-Adds :
      (ds : List ProofData) (r r' : VerificationReport)
      → check_inclusions sha256 ds r ≡ ok r'
      → Adds 0 0 0 (length ds) 0 r r'
  unfolding check_inclusions
  inclusions-Adds [] r r' h = let same : r ≡ r' = cc in Adds-eq 0 0 0 0 0 r r r' same (omega arith)
  inclusions-Adds (d ∷ ds) r r' h =
      let (s, here, more) = >>=-ok (check_inclusion sha256 d r) _ h in
      let tail = inclusions-Adds ds s r' more in let head = inclusion-Adds d r s here in omega arith

  -- A report counts each receipt once among the hashes and once among the links, each receipt whose
  -- body canonicalizes once among the signatures, each inclusion proof once and each anchor once.
  pub all_counted :
      (rpc : Str → Str → RpcAnswer) (on : Bool) (url : Option Str) (p : AuditPacket)
      (r : VerificationReport)
      → verify_audit_packet sha256 check rpc on url p ≡ ok r
      → (r.receipt_hash_ok + r.receipt_hash_fail ≡ length p.receipts)
        × (r.receipt_sig_ok + r.receipt_sig_fail ≡ canonical_bodies p.receipts)
        × (r.chain_links_ok + r.chain_links_fail + r.chain_links_skip ≡ length p.receipts)
        × (r.inclusion_ok + r.inclusion_fail ≡ length p.inclusion_proofs)
        × (r.anchor_ok + r.anchor_fail + r.anchor_skip ≡ length p.anchor_proofs)
  unfolding verify_audit_packet verify_receipt_signatures verify_chain_continuity
      verify_inclusion_proofs
  all_counted rpc on url p r h =
      let (chained, h1, h2) = >>=-ok (verify_chain_continuity p _) _ h in
      let (included, h3, h4) = >>=-ok (verify_inclusion_proofs sha256 p chained) _ h2 in
      let (sorted, h5, h6) = >>=-ok (sort_by_seq p.receipts) _ h1 in
      let last : verify_metadata p (anchor_step rpc on url p included) ≡ r = cc h4 in
      let a = receipts-Adds p.public_keys p.receipts new_report in
      let b = sorted-Adds sorted _ chained h6 in
      let c = inclusions-Adds p.inclusion_proofs chained included h3 in
      let d = anchor_step-Adds rpc on url p included in
      let q = anchor_step rpc on url p included in
      let e : Adds 0 0 0 0 0 q r =
        Adds-eq 0 0 0 0 0 q (verify_metadata p q) r last (metadata-Adds p q) in
      omega (arith, length-sort_by_seq p.receipts sorted h5)
