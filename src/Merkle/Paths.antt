-- ===== src/Merkle/Paths.antt =====
-- The path of `compute_inclusion_proof` of gateway/merkle.py through the levels of a tree, and the
-- verifier's walk along it.
use agent_authorization_gate.Base.{
  ℕ, zero, suc, ◌+◌, ◌-◌, ◌/◌, ◌≤◌, ◌<◌, ◌≡◌, refl, ap, sym, ◌∙◌, some, List, [], ◌∷◌, ◌++◌, ok,
  Bytes, codes, str_eq, str_eq_refl, hex, from_hex-hex, Bool-cases, inl, inr, length, get_elem?,
  ltb, All, arith, true, false,
}
use agent_authorization_gate.Merkle.{
  ProofStep, bytes_of_hex, next_level, build_levels, build_tree, first, top, sibling, proof_path,
  unified_node_hash, recompute,
}
use agent_authorization_gate.Merkle.Digest.{IsDigest}
use agent_authorization_gate.Merkle.Levels.{
  next_level_le, top-cons, build_levels-cons, build_levels-more,
}
use agent_authorization_gate.Merkle.Leaves.{IsBytes}

bytes_of_hex-hex : (b : Bytes) → IsBytes b → bytes_of_hex (hex b) ≡ ok b
unfolding bytes_of_hex
bytes_of_hex-hex b h = rw (from_hex-hex b h, bytes_of_hex)

-- Two places further down a level the proof step is the same.
sibling-shift :
    (a b : Bytes) (level : List Bytes) (i : ℕ)
    → sibling (a ∷ b ∷ level) (suc (suc i)) ≡ sibling level i
unfolding sibling
sibling-shift a b level zero = ground arith
sibling-shift a b level (suc i) =
    let next : suc (suc (suc i)) + 1 ≡ suc (suc (suc i + 1)) = omega arith in
    let last : suc (suc (suc i)) - 1 ≡ suc (suc i) = omega arith in
    let last' : suc i - 1 ≡ i = omega arith in rw (next, last, last') (ground arith)

pub build_tree-cons :
    (node : Bytes → Bytes → Bytes) (leaves : List Bytes)
    → 0 < length leaves
    → build_tree node leaves ≡ ok (build_levels node (length leaves) leaves)
unfolding build_tree
build_tree-cons node [] h = absurd (omega arith)
build_tree-cons node (l ∷ ls) h = refl

module _ (sha256 : Bytes → Bytes) (digest : IsDigest sha256) where
  next_level-IsBytes :
      (level : List Bytes)
      → All IsBytes level
      → All IsBytes (next_level (unified_node_hash sha256) level)
  unfolding next_level unified_node_hash
  next_level-IsBytes [] h = tt
  next_level-IsBytes (a ∷ []) h = h
  next_level-IsBytes (a ∷ b ∷ rest) h = (digest.bytes _, next_level-IsBytes rest h.1.1)

  -- What one level contributes to the proof takes the verifier from a node to its parent.
  abbrev Parent : List Bytes → ℕ → Bytes → Type 0
  Parent level i c =
      (steps : List ProofStep) × (p : Bytes) × (sibling level i ≡ ok steps)
      × (get_elem? (next_level (unified_node_hash sha256) level) (i / 2) ≡ some p)
      × ((rest : List ProofStep) → recompute sha256 c (steps ++ rest) ≡ recompute sha256 p rest)

  step_right :
      (a b : Bytes) (rest : List ProofStep)
      → IsBytes b
      → recompute sha256 a (record { hash = hex b; direction = codes "right" } ∷ rest)
        ≡ recompute sha256 (unified_node_hash sha256 a b) rest
  unfolding recompute
  step_right a b rest h = rw (bytes_of_hex-hex b h) (rw (str_eq_refl (codes "right")))

  step_left :
      (a b : Bytes) (rest : List ProofStep)
      → IsBytes a
      → recompute sha256 b (record { hash = hex a; direction = codes "left" } ∷ rest)
        ≡ recompute sha256 (unified_node_hash sha256 a b) rest
  unfolding recompute str_eq
  step_left a b rest h = rw (bytes_of_hex-hex a h)

  get-shift :
      (a b : Bytes) (r : List Bytes) (j : ℕ) {p : Bytes}
      → get_elem? (next_level (unified_node_hash sha256) r) j ≡ some p
      → get_elem? (next_level (unified_node_hash sha256) (a ∷ b ∷ r)) (suc j) ≡ some p
  unfolding next_level
  get-shift a b r j g = g

  parent :
      (level : List Bytes) (i : ℕ) (c : Bytes)
      → All IsBytes level
      → get_elem? level i ≡ some c
      → Parent level i c
  parent [] i c h e = cc
  parent (a ∷ []) zero c h e =
      let same : a ≡ c = cc in
      ([], a, unfold sibling in refl, unfold next_level in refl, λ rest. rw same)
  parent (a ∷ []) (suc i) c h e = cc
  parent (a ∷ b ∷ r) zero c h e =
      let same : a ≡ c = cc in
      (
        record { hash = hex b; direction = codes "right" } ∷ [],
        unified_node_hash sha256 a b,
        unfold sibling in ground arith,
        unfold next_level in refl,
        λ rest. rw (← same) (step_right a b rest h.1.0),
      )
  parent (a ∷ b ∷ r) (suc zero) c h e =
      let same : b ≡ c = cc in
      (
        record { hash = hex a; direction = codes "left" } ∷ [],
        unified_node_hash sha256 a b,
        unfold sibling in refl,
        unfold next_level in refl,
        λ rest. rw (← same) (step_left a b rest h.0),
      )
  parent (a ∷ b ∷ r) (suc (suc i)) c h e =
      let (steps, p, s, g, f) = parent r i c h.1.1 e in
      let half : suc (suc i) / 2 ≡ suc (i / 2) = omega arith in
      (steps, p, rw (sibling-shift a b r i) s, rw half (get-shift a b r (i / 2) g), f)

  -- Up all levels: the whole path of the node `c` at place `i` leads to the root.
  abbrev pub Leads : ℕ → List Bytes → ℕ → Bytes → Bytes → Type 0
  Leads fuel level i c root =
      (steps : List ProofStep) × (proof_path (build_levels (unified_node_hash sha256) fuel level) i
        ≡ ok steps)
      × (recompute sha256 c steps ≡ ok root)

  path-cons :
      (fuel : ℕ) (level above : List Bytes) (i : ℕ) {here rest : List ProofStep}
      → sibling level i ≡ ok here
      → proof_path (build_levels (unified_node_hash sha256) fuel above) (i / 2) ≡ ok rest
      → proof_path (level ∷ build_levels (unified_node_hash sha256) fuel above) i
        ≡ ok (here ++ rest)
  path-cons fuel level above i s q =
      let (levels, e) = build_levels-cons (unified_node_hash sha256) fuel above in
      rw e (unfold proof_path in rw s (rw (rw e at q)))

  no_place :
      (level : List Bytes) (i : ℕ) {c : Bytes} → length level ≤ 0 → get_elem? level i ≡ some c → ⊥
  no_place [] i n e = cc
  no_place (a ∷ level) i n e = absurd (omega arith)

  next_level_fits :
      (level : List Bytes) (fuel : ℕ)
      → ltb 1 (length level) ≡ true
      → length level ≤ suc fuel
      → length (next_level (unified_node_hash sha256) level) ≤ fuel
  next_level_fits level fuel more n = ground (arith, next_level_le (unified_node_hash sha256) level)

  -- A level of one node is its own root, and its proof is empty.
  only :
      (fuel : ℕ) (level : List Bytes) (i : ℕ) (c root : Bytes)
      → ltb 1 (length level) ≡ false
      → get_elem? level i ≡ some c
      → top (build_levels (unified_node_hash sha256) (suc fuel) level) ≡ ok root
      → Leads (suc fuel) level i c root
  unfolding build_levels top first proof_path recompute
  only fuel [] i c root done e t = cc
  only fuel (a ∷ []) zero c root done e t = ([], refl, cc)
  only fuel (a ∷ []) (suc i) c root done e t = cc
  only fuel (a ∷ b ∷ r) i c root done e t = absurd (ground arith)

  pub leads :
      (fuel : ℕ) (level : List Bytes) (i : ℕ) (c root : Bytes)
      → All IsBytes level
      → length level ≤ fuel
      → get_elem? level i ≡ some c
      → top (build_levels (unified_node_hash sha256) fuel level) ≡ ok root
      → Leads fuel level i c root
  leads zero level i c root h n e t = absurd (no_place level i n e)
  leads (suc fuel) level i c root h n e t = elim (Bool-cases (ltb 1 (length level))) [
    | inl more ↦
        let node = unified_node_hash sha256 in
        let (here, p, s, g, f) = parent level i c h e in
        let t' : top (build_levels node fuel (next_level node level)) ≡ ok root =
          sym (top-cons node level fuel _)
          ∙ ap top (sym (build_levels-more node fuel level more))
          ∙ t in
        let (rest, q, r) =
          leads fuel (next_level node level) (i / 2) p root (next_level-IsBytes level h)
            (next_level_fits level fuel more n) g t' in
        (
          here ++ rest,
          rw (build_levels-more node fuel level more) (path-cons fuel level _ i s q),
          rw (f rest) r,
        )
    | inr done ↦ only fuel level i c root done e t
  ]
