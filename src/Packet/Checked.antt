-- ===== src/Packet/Checked.antt =====
-- What a passing report of gateway/audit_packet_verifier.py says of the inclusion proofs, the anchors
-- and the counts of the metadata.
use agent_authorization_gate.Base.{
  ℕ, ◌≡◌, ◌↔◌, refl, sym, ap, ◌∙◌, Bool, true, false, ◌&&◌, Bool-cases, ◌⊎◌, inl, inr, Option, none,
  some, List, [], ◌∷◌, Result-cases, ok, >>=-ok, Str, Bytes, codes, str_eq, str_eq_iff, str_eq_refl,
  All, arith, length, remove_prefix, contains_text,
}
use agent_authorization_gate.Packet.Crosscheck.{
  check_anchors, same_count, verify_onchain_anchors, anchor_step, verify_metadata, note_answer,
  url_or_default, decisions, note_count,
}
use agent_authorization_gate.Packet.{
  ProofData, RpcAnswer, PacketError, AuditPacket, recompute_root, Anchor, passed,
  VerificationReport, text_or_empty, transaction, not_found, rpc_failed,
}
use agent_authorization_gate.Packet.Proofs.{check_inclusion, check_inclusions, note_root}
use agent_authorization_gate.Packet.Passing.{Passes, and_true}

module _ (sha256 : Bytes → Bytes) where
  -- The walk of the proof ends in the root that it states.
  abbrev pub Included : ProofData → Type 0
  Included d =
      recompute_root sha256 (remove_prefix (codes "sha256:") d.receipt_hash) d.proof
      ≡ ok (text_or_empty d.merkle_root)

  passed-note_root :
      (b : Bool) (r : VerificationReport) → passed (note_root sha256 b r) ≡ (b && passed r)
  unfolding passed note_root
  passed-note_root true r = refl
  passed-note_root false r = ground arith

  inclusion_to :
      (d : ProofData) (r r' : VerificationReport)
      → check_inclusion sha256 d r ≡ ok r'
      → Passes r'
      → Included d × Passes r
  unfolding check_inclusion
  inclusion_to d r r' h p =
      elim (Result-cases
        (recompute_root sha256 (remove_prefix (codes "sha256:") d.receipt_hash) d.proof)) [
          | inr (x, raised) ↦ cc (rw (raised, check_inclusion) at h)
          | inl (root, walked) ↦
              let same = str_eq root (text_or_empty d.merkle_root) in
              let note : note_root sha256 same r ≡ r' = cc (rw (walked, check_inclusion) at h) in
              let both = and_true same (passed r) in
              let (e, q) = both.0 (sym (passed-note_root same r) ∙ ap passed note ∙ p) in
              (walked ∙ ap ok ((str_eq_iff _ _).0 e), q)
        ]

  inclusion_from :
      (d : ProofData) (r r' : VerificationReport)
      → check_inclusion sha256 d r ≡ ok r'
      → Included d
      → Passes r
      → Passes r'
  unfolding check_inclusion
  inclusion_from d r r' h i p =
      let root = text_or_empty d.merkle_root in
      let note : note_root sha256 (str_eq root root) r ≡ r' = cc (rw (i, check_inclusion) at h) in
      sym (ap passed note)
      ∙ passed-note_root (str_eq root root) r
      ∙ (and_true (str_eq root root) (passed r)).1 (str_eq_refl root, p)

  pub inclusions_to :
      (ds : List ProofData) (r r' : VerificationReport)
      → check_inclusions sha256 ds r ≡ ok r'
      → Passes r'
      → All Included ds × Passes r
  unfolding check_inclusions
  inclusions_to [] r r' h p = (tt, let same : r ≡ r' = cc in ap passed same ∙ p)
  inclusions_to (d ∷ ds) r r' h p =
      let (s, here, more) = >>=-ok (check_inclusion sha256 d r) _ h in
      let (rest, q) = inclusions_to ds s r' more p in
      let (i, q') = inclusion_to d r s here q in ((i, rest), q')

  pub inclusions_from :
      (ds : List ProofData) (r r' : VerificationReport)
      → check_inclusions sha256 ds r ≡ ok r'
      → All Included ds
      → Passes r
      → Passes r'
  unfolding check_inclusions
  inclusions_from [] r r' h i p = let same : r' ≡ r = cc in ap passed same ∙ p
  inclusions_from (d ∷ ds) r r' h i p =
      let (s, here, more) = >>=-ok (check_inclusion sha256 d r) _ h in
      inclusions_from ds s r' more i.1 (inclusion_from d r s here i.0 p)

  pub inclusions_return :
      (ds : List ProofData) (r : VerificationReport)
      → All Included ds
      → (r' : VerificationReport) × (check_inclusions sha256 ds r ≡ ok r')
  unfolding check_inclusions check_inclusion
  inclusions_return [] r i = (r, refl)
  inclusions_return (d ∷ ds) r i =
      let root = text_or_empty d.merkle_root in
      let (r', more) = inclusions_return ds (note_root sha256 (str_eq root root) r) i.1 in
      (r', rw (i.0, check_inclusion) more)

-- The transaction of the anchor is found, and its calldata holds the root; or the anchor names none.
abbrev pub Confirmed : (Str → RpcAnswer) → Anchor → Type 0
Confirmed answer a =
    (text_or_empty a.tx_hash ≡ [])
    ⊎ ((calldata : Str) × (answer (text_or_empty a.tx_hash) ≡ transaction calldata)
        × (contains_text (remove_prefix (codes "sha256:") (text_or_empty a.merkle_root)) calldata
            ≡ true))

-- What the step on the anchors asks for: nothing, unless the chain is read.
abbrev pub AnchorsHold : (Str → Str → RpcAnswer) → Bool → Option Str → List Anchor → Type 0
AnchorsHold rpc true url as' = All (Confirmed (rpc (url_or_default url))) as'
AnchorsHold rpc false url as' = Unit {0}

answer_to :
    (root : Str) (a : RpcAnswer) (r : VerificationReport)
    → Passes (note_answer root a r)
    → ((calldata : Str) × (a ≡ transaction calldata)
        × (contains_text (remove_prefix (codes "sha256:") root) calldata ≡ true))
      × Passes r
unfolding note_answer passed
answer_to root (transaction calldata) r p =
    elim (Bool-cases (contains_text (remove_prefix (codes "sha256:") root) calldata)) [
      | inl held ↦ ((calldata, refl, held), rw held at p)
      | inr missing ↦ let q = rw missing at p in absurd (ground arith)
    ]
answer_to root not_found r p = absurd (ground arith)
answer_to root rpc_failed r p = absurd (ground arith)

answer_from :
    (root calldata : Str) (r : VerificationReport)
    → contains_text (remove_prefix (codes "sha256:") root) calldata ≡ true
    → Passes r
    → Passes (note_answer root (transaction calldata) r)
unfolding note_answer passed
answer_from root calldata r held p = rw held p

passed-anchor_skip :
    (n : ℕ) (r : VerificationReport) → passed (record r { anchor_skip = n }) ≡ passed r
unfolding passed
passed-anchor_skip n r = refl

anchors_to :
    (answer : Str → RpcAnswer) (as' : List Anchor) (r : VerificationReport)
    → Passes (check_anchors answer as' r)
    → All (Confirmed answer) as' × Passes r
unfolding check_anchors
anchors_to answer [] r p = (tt, p)
anchors_to answer (a ∷ rest) r p =
    let (c, q) = anchors_to answer rest _ p in
    elim (Bool-cases (str_eq (text_or_empty a.tx_hash) [])) [
      | inl empty ↦ (
        (inl ((str_eq_iff (text_or_empty a.tx_hash) []).0 empty), c),
        sym (passed-anchor_skip _ r) ∙ rw empty at q,
      )
      | inr named ↦
          let (held, q') = answer_to (text_or_empty a.merkle_root) _ r (rw named at q) in
          ((inr held, c), q')
    ]

anchors_from :
    (answer : Str → RpcAnswer) (as' : List Anchor) (r : VerificationReport)
    → All (Confirmed answer) as'
    → Passes r
    → Passes (check_anchors answer as' r)
unfolding check_anchors
anchors_from answer [] r c p = p
anchors_from answer (a ∷ rest) r c p =
    anchors_from answer rest _ c.1 (elim (Bool-cases (str_eq (text_or_empty a.tx_hash) [])) [
      | inl empty ↦ rw empty (passed-anchor_skip _ r ∙ p)
      | inr named ↦ rw named (elim c.0 [
        | inl none_named ↦ cc (named, (str_eq_iff (text_or_empty a.tx_hash) []).1 none_named)
        | inr (calldata, found, held) ↦
            rw found (answer_from (text_or_empty a.merkle_root) calldata r held p)
      ])
    ])

pub default-url : (url : Option Str) → (c : ℕ) × (t : Str) × (url_or_default url ≡ c ∷ t)
default-url none = (_, _, refl)
default-url (some []) = (_, _, refl)
default-url (some (c ∷ t)) = (c, t, refl)

pub onchain :
    (rpc : Str → Str → RpcAnswer) (url : Str) (p : AuditPacket) (r : VerificationReport)
    → ((c : ℕ) × (t : Str) × (url ≡ c ∷ t))
    → verify_onchain_anchors rpc p (some url) r ≡ check_anchors (rpc url) p.anchor_proofs r
unfolding verify_onchain_anchors
onchain rpc [] p r (c, t, e) = cc
onchain rpc (c ∷ t) p r e = refl

pub anchor_step_to :
    (rpc : Str → Str → RpcAnswer) (on : Bool) (url : Option Str) (p : AuditPacket)
    (r : VerificationReport)
    → Passes (anchor_step rpc on url p r)
    → AnchorsHold rpc on url p.anchor_proofs × Passes r
unfolding anchor_step
anchor_step_to rpc true url p r h =
    anchors_to (rpc (url_or_default url)) p.anchor_proofs r
      (sym (ap passed (onchain rpc (url_or_default url) p r (default-url url))) ∙ h)
anchor_step_to rpc false url p r h = (tt, sym (passed-anchor_skip _ r) ∙ h)

pub anchor_step_from :
    (rpc : Str → Str → RpcAnswer) (on : Bool) (url : Option Str) (p : AuditPacket)
    (r : VerificationReport)
    → AnchorsHold rpc on url p.anchor_proofs
    → Passes r
    → Passes (anchor_step rpc on url p r)
unfolding anchor_step
anchor_step_from rpc true url p r a h =
    ap passed (onchain rpc (url_or_default url) p r (default-url url))
    ∙ anchors_from (rpc (url_or_default url)) p.anchor_proofs r a h
anchor_step_from rpc false url p r a h = passed-anchor_skip _ r ∙ h

-- The metadata states the numbers of receipts, of approvals, of denials and of anchors.
abbrev pub CountsHold : AuditPacket → Type 0
CountsHold p =
    (p.metadata.receipt_count ≡ some (length p.receipts))
    × (p.metadata.approval_count ≡ some (decisions (codes "approve") p.receipts))
    × (p.metadata.denial_count ≡ some (decisions (codes "deny") p.receipts))
    × (p.metadata.anchor_count ≡ some (length p.anchor_proofs))

same_count_iff : (o : Option ℕ) (n : ℕ) → (same_count o n ≡ true) ↔ (o ≡ some n)
same_count_iff none n = ground arith
same_count_iff (some m) n = ground arith

passed-note_count :
    (x : PacketError) (b : Bool) (r : VerificationReport)
    → passed (note_count x b r) ≡ (b && passed r)
unfolding passed note_count
passed-note_count x true r = refl
passed-note_count x false r = ground arith

count_to :
    (x : PacketError) (o : Option ℕ) (n : ℕ) (r : VerificationReport)
    → Passes (note_count x (same_count o n) r)
    → (o ≡ some n) × Passes r
count_to x o n r p =
    let (e, q) = (and_true (same_count o n) (passed r)).0 (sym (passed-note_count x _ r) ∙ p) in
    ((same_count_iff o n).0 e, q)

count_from :
    (x : PacketError) (o : Option ℕ) (n : ℕ) (r : VerificationReport)
    → o ≡ some n
    → Passes r
    → Passes (note_count x (same_count o n) r)
count_from x o n r e p =
    passed-note_count x _ r ∙ (and_true (same_count o n) (passed r)).1 ((same_count_iff o n).1 e, p)

pub metadata_to :
    (p : AuditPacket) (r : VerificationReport)
    → Passes (verify_metadata p r)
    → CountsHold p × Passes r
unfolding verify_metadata
metadata_to p r h =
    let (d, q) = count_to _ p.metadata.anchor_count _ _ h in
    let (c, q') = count_to _ p.metadata.denial_count _ _ q in
    let (b, q'') = count_to _ p.metadata.approval_count _ _ q' in
    let (a, q''') = count_to _ p.metadata.receipt_count _ _ q'' in ((a, b, c, d), q''')

pub metadata_from :
    (p : AuditPacket) (r : VerificationReport)
    → CountsHold p
    → Passes r
    → Passes (verify_metadata p r)
unfolding verify_metadata
metadata_from p r (a, b, c, d) h = count_from _ p.metadata.anchor_count _ _ d (
    count_from _ p.metadata.denial_count _ _ c (
      count_from _ p.metadata.approval_count _ _ b (count_from _ p.metadata.receipt_count _ _ a h)))
