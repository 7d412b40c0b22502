-- ===== src/Merkle/Tests.antt =====
-- Tests of gateway/merkle.py on a small hash function, and instances of its theorems.
use agent_authorization_gate.Base.{
  ◌≡◌, refl, List, [], ◌∷◌, ok, Str, codes, from_hex, All, some, get_elem?, length, there, here,
  Bytes, ◌⊎◌, hex, ◌++◌, ◌>>=◌, arith, Elem, take,
}
use agent_authorization_gate.Fixtures.{toy_hash, toy_hash-IsDigest}
use agent_authorization_gate.Merkle.{
  InclusionProof, compute_inclusion_proof, recompute_root, compute_unified_root, compute_batch_root,
  proof_path, build_levels, map_result, leaf_hash, reduce, node_hash, sha256_prefix,
}
use agent_authorization_gate.Merkle.Leaves.{IsHex}
use agent_authorization_gate.Merkle.Completeness.{inclusion_proof_verifies}
use agent_authorization_gate.Merkle.Soundness.{InBatch, inclusion_proof_sound}
use agent_authorization_gate.Merkle.Digest.{Collision}
use agent_authorization_gate.Merkle.Roots.{tree_root, batch_root-eq-tree_root, batch_root_total}
use agent_authorization_gate.Merkle.Inputs.{batch_inputs, walk_inputs}

abbrev batch : List Str
batch = codes "00ff" ∷ codes "a1" ∷ codes "B2 c3" ∷ []

batch-IsHex : All IsHex batch
unfolding from_hex
batch-IsHex = ((_, refl), ((_, refl), ((_, refl), tt)))

inclusion_proof_verifies_example :
    (p : InclusionProof) × (compute_inclusion_proof toy_hash batch (codes "a1") ≡ ok (some p))
    × (recompute_root toy_hash (codes "a1") p.proof ≡ ok p.root)
    × (compute_unified_root toy_hash batch ≡ ok p.root)
    × (p.artifact_hash ≡ codes "a1")
    × (get_elem? batch p.leaf_index ≡ some (codes "a1"))
    × ¬ (Elem (codes "a1") (take p.leaf_index batch))
    × (p.tree_size ≡ length batch)
inclusion_proof_verifies_example =
    inclusion_proof_verifies toy_hash toy_hash-IsDigest batch (codes "a1") batch-IsHex
      (there (here refl))

abbrev Verified : Type 0
Verified =
    (p : InclusionProof) × (compute_unified_root toy_hash batch ≡ ok p.root)
    × (recompute_root toy_hash (codes "a1") p.proof ≡ ok p.root)

verified : Verified
verified =
    let (p, c, r, u, a, g, first, n) =
      inclusion_proof_verifies toy_hash toy_hash-IsDigest batch (codes "a1") batch-IsHex
        (there (here refl)) in
    (p, u, r)

inclusion_proof_sound_example :
    InBatch batch (codes "a1")
    ⊎ Collision toy_hash
        (batch_inputs toy_hash batch)
        (walk_inputs toy_hash (codes "a1") verified.0.proof)
inclusion_proof_sound_example =
    inclusion_proof_sound toy_hash toy_hash-IsDigest batch (codes "a1") verified.0.root
      verified.0.proof verified.1 verified.2

batch_root-eq-tree_root_example :
    compute_batch_root toy_hash batch
    ≡ (map_result (leaf_hash toy_hash) batch >>= tree_root toy_hash (node_hash toy_hash))
batch_root-eq-tree_root_example = batch_root-eq-tree_root toy_hash batch

batch_root_total_example :
    (leaves : List Bytes) × (root : Bytes) × (map_result (leaf_hash toy_hash) batch ≡ ok leaves)
    × (reduce (node_hash toy_hash) (length leaves) leaves ≡ root ∷ [])
    × (compute_batch_root toy_hash batch ≡ ok (sha256_prefix ++ hex root))
batch_root_total_example = batch_root_total toy_hash batch batch-IsHex (omega arith)

-- An odd level promotes its last node, and the proof of that leaf skips the level.
promoted :
    proof_path (build_levels (λ a b. a ++ b) 3 ((1 ∷ []) ∷ (2 ∷ []) ∷ (3 ∷ []) ∷ [])) 2
    ≡ ok (record { hash = codes "0102"; direction = codes "left" } ∷ [])
unfolding proof_path build_levels hex
promoted = refl
