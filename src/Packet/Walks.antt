-- ===== src/Packet/Walks.antt =====
-- The walk along an inclusion proof, by gateway/audit_packet_verifier.py, described as a relation.
use agent_authorization_gate.Base.{
  ◌≡◌, ◌≢◌, ◌↔◌, refl, sym, ap, ◌∙◌, Bool-cases, inl, inr, some, List, [], ◌∷◌, ◌++◌, ok, >>=-ok,
  Str, Bytes, codes, from_hex, hex, subst, str_eq, str_eq_iff, remove_prefix, Option-cases,
}
use agent_authorization_gate.Merkle.{
  ProofStep, recompute, recompute_root, bytes_of_hex, unified_leaf_hash, unified_node_hash,
  sha256_prefix,
}
use agent_authorization_gate.Merkle.Inputs.{leaf_input, node_input}
use agent_authorization_gate.Packet.{ProofData, text_or_empty}

module _ (sha256 : Bytes → Bytes) where
  -- A digest leads along the steps to a root: a step says on which side its sibling stands.
  pub data Walk : Bytes → List ProofStep → Bytes → Type 0 where
    at_root : (b : Bytes) → Walk b [] b
    to_right :
        (b sibling root : Bytes) (step : ProofStep) (steps : List ProofStep)
        → from_hex step.hash ≡ some sibling
        → step.direction ≡ codes "right"
        → Walk (sha256 (node_input b sibling)) steps root
        → Walk b (step ∷ steps) root
    to_left :
        (b sibling root : Bytes) (step : ProofStep) (steps : List ProofStep)
        → from_hex step.hash ≡ some sibling
        → step.direction ≢ codes "right"
        → Walk (sha256 (node_input sibling b)) steps root
        → Walk b (step ∷ steps) root

  -- From the leaf of the receipt's hash, the proof leads to the root that it states.
  abbrev pub LeadsToRoot : ProofData → Type 0
  LeadsToRoot d =
      (leaf root : Bytes) × (from_hex (remove_prefix (codes "sha256:") d.receipt_hash) ≡ some leaf)
      × Walk (sha256 (leaf_input leaf)) d.proof root
      × (text_or_empty d.merkle_root ≡ codes "sha256:" ++ hex root)

  bytes_to : (s : Str) (b : Bytes) → bytes_of_hex s ≡ ok b → from_hex s ≡ some b
  unfolding bytes_of_hex
  bytes_to s b h = elim (Option-cases (from_hex s)) [
    | inl e ↦ cc (rw (e, bytes_of_hex) at h)
    | inr (c, e) ↦ let same : c ≡ b = cc (rw (e, bytes_of_hex) at h) in e ∙ ap some same
  ]

  bytes_from : (s : Str) (b : Bytes) → from_hex s ≡ some b → bytes_of_hex s ≡ ok b
  unfolding bytes_of_hex
  bytes_from s b h = rw (h, bytes_of_hex) refl

  recompute-Walk :
      (steps : List ProofStep) (b root : Bytes)
      → recompute sha256 b steps ≡ ok root
      → Walk b steps root
  unfolding recompute unified_node_hash
  recompute-Walk [] b root h = let e : b ≡ root = cc in subst (Walk b []) e (at_root b)
  recompute-Walk (step ∷ steps) b root h =
      let (sibling, h1, h2) = >>=-ok (bytes_of_hex step.hash) _ h in
      let hashed = bytes_to step.hash sibling h1 in
      elim (Bool-cases (str_eq step.direction (codes "right"))) [
        | inl right ↦
            to_right b sibling root step steps hashed ((str_eq_iff _ _).0 right)
              (recompute-Walk steps _ root (rw right at h2))
        | inr left ↦
            to_left b sibling root step steps hashed
              (λ e. let r = (str_eq_iff step.direction (codes "right")).1 e in cc (left, r))
              (recompute-Walk steps _ root (rw left at h2))
      ]

  Walk-recompute :
      {b root : Bytes} {steps : List ProofStep}
      → Walk b steps root
      → recompute sha256 b steps ≡ ok root
  unfolding recompute unified_node_hash
  Walk-recompute (at_root b) = refl
  Walk-recompute (to_right b sibling root step steps hashed right w) =
      rw (bytes_from step.hash sibling hashed)
        (rw ((str_eq_iff step.direction (codes "right")).1 right) (Walk-recompute w))
  Walk-recompute (to_left b sibling root step steps hashed left w) =
      elim (Bool-cases (str_eq step.direction (codes "right"))) [
        | inl right ↦ absurd (left ((str_eq_iff _ _).0 right))
        | inr other ↦ rw (bytes_from step.hash sibling hashed) (rw other (Walk-recompute w))
      ]

  pub walked_iff :
      (d : ProofData)
      → (recompute_root sha256 (remove_prefix (codes "sha256:") d.receipt_hash) d.proof
          ≡ ok (text_or_empty d.merkle_root))
        ↔ LeadsToRoot d
  unfolding recompute_root unified_leaf_hash
  walked_iff d = (
    λ h.
        let (start, h1, h2) =
          >>=-ok (unified_leaf_hash sha256 (remove_prefix (codes "sha256:") d.receipt_hash)) _ h in
        let (leaf, h3, h4) =
          >>=-ok (bytes_of_hex (remove_prefix (codes "sha256:") d.receipt_hash)) _ h1 in
        let (root, h5, h6) = >>=-ok (recompute sha256 start d.proof) _ h2 in
        let hashed : sha256 (leaf_input leaf) ≡ start = cc h4 in
        let text : sha256_prefix ++ hex root ≡ text_or_empty d.merkle_root = cc h6 in
        (
          leaf,
          root,
          bytes_to _ leaf h3,
          subst (λ b. Walk b d.proof root) (sym hashed) (recompute-Walk d.proof start root h5),
          sym text,
        ),
    λ (leaf, root, named, w, text).
        rw (bytes_from _ leaf named) (rw (Walk-recompute w) (ap ok (sym text))),
  )
