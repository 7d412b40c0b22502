-- ===== src/Merkle/Completeness.antt =====
-- An inclusion proof of `compute_inclusion_proof` leads the verifier to the root of the batch.
use agent_authorization_gate.Base.{
  ℕ, ◌<◌, ◌≡◌, refl, ◌∙◌, some, List, [], ◌∷◌, ◌++◌, ok, Str, Bytes, hex, length, get_elem?, take,
  All, arith, Elem,
}
use agent_authorization_gate.Merkle.{
  ProofStep, InclusionProof, build_levels, top, proof_path, unified_node_hash, recompute,
  unified_leaf_hash, map_result, compute_inclusion_proof, proof_at, index_of, recompute_root,
  compute_unified_root, sha256_prefix,
}
use agent_authorization_gate.Merkle.Digest.{IsDigest}
use agent_authorization_gate.Merkle.Levels.{top_total}
use agent_authorization_gate.Merkle.Leaves.{
  IsHex, index_of-Elem, index_of-first, leaves-total, leaf_at,
}
use agent_authorization_gate.Merkle.Paths.{build_tree-cons, leads}

module _ (sha256 : Bytes → Bytes) (digest : IsDigest sha256) where
  -- The parts of a successful run, put together.
  unified_root_lem :
      (hashes : List Str) (leaves : List Bytes) (root : Bytes)
      → map_result (unified_leaf_hash sha256) hashes ≡ ok leaves
      → 0 < length hashes
      → 0 < length leaves
      → top (build_levels (unified_node_hash sha256) (length leaves) leaves) ≡ ok root
      → compute_unified_root sha256 hashes ≡ ok (sha256_prefix ++ hex root)
  unified_root_lem [] leaves root ls h pos t = absurd (omega arith)
  unified_root_lem (x ∷ xs) leaves root ls h pos t =
      unfold compute_unified_root in
      rw ls (rw (build_tree-cons (unified_node_hash sha256) leaves pos) (rw t))

  proof_at_lem :
      (hashes : List Str) (target : Str) (i : ℕ) (leaves : List Bytes) (root : Bytes)
      (steps : List ProofStep)
      → map_result (unified_leaf_hash sha256) hashes ≡ ok leaves
      → 0 < length leaves
      → top (build_levels (unified_node_hash sha256) (length leaves) leaves) ≡ ok root
      → proof_path (build_levels (unified_node_hash sha256) (length leaves) leaves) i ≡ ok steps
      → proof_at sha256 hashes target i
        ≡ ok (
            some (record {
              artifact_hash = target;
              leaf_index = i;
              tree_size = length hashes;
              root = sha256_prefix ++ hex root;
              proof = steps;
            }))
  unfolding proof_at
  proof_at_lem hashes target i leaves root steps ls pos t p =
      rw ls (rw (build_tree-cons (unified_node_hash sha256) leaves pos) (rw t (rw p)))

  compute_at :
      (hashes : List Str) (target : Str) (i : ℕ)
      → index_of target hashes ≡ some i
      → compute_inclusion_proof sha256 hashes target ≡ proof_at sha256 hashes target i
  unfolding compute_inclusion_proof
  compute_at hashes target i e = rw (e, compute_inclusion_proof)

  recompute_root_lem :
      (target : Str) (steps : List ProofStep) (c root : Bytes)
      → unified_leaf_hash sha256 target ≡ ok c
      → recompute sha256 c steps ≡ ok root
      → recompute_root sha256 target steps ≡ ok (sha256_prefix ++ hex root)
  unfolding recompute_root
  recompute_root_lem target steps c root lc rc = rw lc (rw rc)

  -- For an artifact of a batch whose hashes are all hexadecimal, `compute_inclusion_proof` returns a
  -- proof that names the artifact, its first place, the size and the root that
  -- `compute_unified_root` gives the batch, and the verifier's walk along it ends in that root.
  pub inclusion_proof_verifies :
      (hashes : List Str) (target : Str)
      → All IsHex hashes
      → Elem target hashes
      → (p : InclusionProof) × (compute_inclusion_proof sha256 hashes target ≡ ok (some p))
        × (recompute_root sha256 target p.proof ≡ ok p.root)
        × (compute_unified_root sha256 hashes ≡ ok p.root)
        × (p.artifact_hash ≡ target)
        × (get_elem? hashes p.leaf_index ≡ some target)
        × ¬ (Elem target (take p.leaf_index hashes))
        × (p.tree_size ≡ length hashes)
  inclusion_proof_verifies [] target hs m = elim m [ ]
  inclusion_proof_verifies (x ∷ xs) target hs m =
      let hashes = x ∷ xs in
      let (i, f, g) = index_of-Elem target hashes m in
      let (leaves, ls, bs, n) = leaves-total sha256 digest hashes hs in
      let (c, lc, gc) = leaf_at sha256 digest hashes i target leaves ls g in
      let node = unified_node_hash sha256 in
      let pos : 0 < length leaves = omega arith in
      let (root, t) = top_total node (length leaves) leaves pos (omega arith) in
      let (steps, pp, rc) =
        leads sha256 digest (length leaves) leaves i c root bs (omega arith) gc t in
      (
        record {
          artifact_hash = target;
          leaf_index = i;
          tree_size = length hashes;
          root = sha256_prefix ++ hex root;
          proof = steps;
        },
        compute_at hashes target i f ∙ proof_at_lem hashes target i leaves root steps ls pos t pp,
        recompute_root_lem target steps c root lc rc,
        unified_root_lem hashes leaves root ls (omega arith) pos t,
        refl,
        g,
        index_of-first target hashes i f,
        refl,
      )
