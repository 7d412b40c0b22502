-- ===== src/Merkle/Roots.antt =====
-- The loop of `compute_batch_root` against the tree of `_build_tree`.
use agent_authorization_gate.Base.{
  ◌≡◌, refl, List, [], ◌∷◌, ok, Bytes, Str, All, Result, ◌>>=◌, length, ◌<◌, ◌++◌, hex, arith,
  Result-cases, >>=-ok, inl, inr, ap, suc,
}
use agent_authorization_gate.Merkle.{
  MerkleError, map_result, compute_batch_root, leaf_hash, node_hash, build_tree, first, reduce,
  sha256_prefix, top, leaf_domain, bytes_of_hex,
}
use agent_authorization_gate.Merkle.Leaves.{IsHex}
use agent_authorization_gate.Merkle.Levels.{top-build_levels, length-reduce}

mapped_cons :
    {A : Type 0} (f : A → Result MerkleError Bytes) (x : A) (xs : List A) (ys : List Bytes)
    → map_result f (x ∷ xs) ≡ ok ys
    → (l : Bytes) × (ls : List Bytes) × (ys ≡ l ∷ ls)
unfolding map_result
mapped_cons f x xs ys e =
    let (y, p, q) = >>=-ok (f x) _ e in let (zs, r, s) = >>=-ok (map_result f xs) _ q in (y, zs, cc)

only_one : (xs : List Bytes) → length xs ≡ 1 → (x : Bytes) × (xs ≡ x ∷ [])
only_one [] h = absurd (omega arith)
only_one (x ∷ []) h = (x, refl)
only_one (x ∷ y ∷ xs) h = absurd (omega arith)

module _ (sha256 : Bytes → Bytes) where
  -- The root of a tree over leaves, as `compute_unified_root` takes it from `_build_tree`.
  abbrev pub tree_root : (Bytes → Bytes → Bytes) → List Bytes → Result MerkleError Str
  tree_root node leaves = do
    levels ← build_tree node leaves
    root ← top levels
    ok (sha256_prefix ++ hex root)

  tree_root-reduce :
      (node : Bytes → Bytes → Bytes) (l : Bytes) (ls : List Bytes)
      → (first (reduce node (length (l ∷ ls)) (l ∷ ls)) >>= λ r. ok (sha256_prefix ++ hex r))
        ≡ tree_root node (l ∷ ls)
  unfolding build_tree
  tree_root-reduce node l ls = rw (top-build_levels node (length (l ∷ ls)) (l ∷ ls))

  over_leaves :
      (leaves : List Bytes)
      → (l : Bytes) × (ls : List Bytes) × (leaves ≡ l ∷ ls)
      → (first (reduce (node_hash sha256) (length leaves) leaves) >>= λ r.
          ok (sha256_prefix ++ hex r))
        ≡ tree_root (node_hash sha256) leaves
  over_leaves leaves (l, ls, e) = rw e (tree_root-reduce (node_hash sha256) l ls)

  -- The separate loop of `compute_batch_root` gives, for every batch and hash function, the root or
  -- the error that `_build_tree` gives over the legacy leaf and node hashes.
  pub batch_root-eq-tree_root :
      (hashes : List Str)
      → compute_batch_root sha256 hashes
        ≡ (map_result (leaf_hash sha256) hashes >>= tree_root (node_hash sha256))
  unfolding compute_batch_root
  batch_root-eq-tree_root [] = unfold map_result build_tree in refl
  batch_root-eq-tree_root (h ∷ hs) = elim (Result-cases (map_result (leaf_hash sha256) (h ∷ hs))) [
    | inl (leaves, e) ↦ rw e (over_leaves leaves (mapped_cons (leaf_hash sha256) h hs leaves e))
    | inr (x, e) ↦ rw e
  ]

  legacy_leaves :
      (hashes : List Str)
      → All IsHex hashes
      → (leaves : List Bytes) × (map_result (leaf_hash sha256) hashes ≡ ok leaves)
        × (length leaves ≡ length hashes)
  unfolding map_result
  legacy_leaves [] h = ([], refl, refl)
  legacy_leaves (x ∷ xs) ((b, e), hs) =
      let (cs, es, n) = legacy_leaves xs hs in
      let leaf : leaf_hash sha256 x ≡ ok (sha256 (leaf_domain ++ 0 ∷ b)) =
        unfold leaf_hash bytes_of_hex in ground arith in
      (sha256 (leaf_domain ++ 0 ∷ b) ∷ cs, rw leaf (rw es), ap suc n)

  -- A batch of hexadecimal hashes that is not empty has a batch root: the loop leaves one node, which
  -- is the root.
  pub batch_root_total :
      (hashes : List Str)
      → All IsHex hashes
      → 0 < length hashes
      → (leaves : List Bytes) × (root : Bytes) × (map_result (leaf_hash sha256) hashes ≡ ok leaves)
        × (reduce (node_hash sha256) (length leaves) leaves ≡ root ∷ [])
        × (compute_batch_root sha256 hashes ≡ ok (sha256_prefix ++ hex root))
  batch_root_total [] h p = absurd (omega arith)
  batch_root_total (x ∷ xs) h p =
      let (leaves, e, n) = legacy_leaves (x ∷ xs) h in
      let (root, one) =
        only_one (reduce (node_hash sha256) (length leaves) leaves)
          (length-reduce (node_hash sha256) (length leaves) leaves (omega arith) (omega arith)) in
      (leaves, root, e, one, unfold compute_batch_root first in rw e (rw one))
