-- ===== src/Merkle.antt =====
-- gateway/merkle.py: domain-separated Merkle trees over artifact hashes, and inclusion proofs.
-- SHA-256 is the parameter `sha256`. A `ValueError` or `IndexError` of the source is an error value.
pub mod Digest
pub mod Levels
pub mod Leaves
pub mod Roots
pub mod Paths
pub mod Completeness
pub mod Inputs
pub mod Nodes
pub mod Soundness
pub mod Tests
use agent_authorization_gate.Base.{
  ℕ, zero, suc, ◌+◌, ◌-◌, ◌/◌, ◌%◌, Option, none, some, List, [], ◌∷◌, ◌++◌, Result, ok, err, ◌>>=◌,
  Str, Bytes, codes, str_eq, hex, from_hex, length, get_elem?, ltb, ◌==◌, if◌then◌else◌,
}

pub data MerkleError : Type 0 where
  empty_batch bad_hex index_error : MerkleError

abbrev pub leaf_domain : Bytes
leaf_domain = codes "BI_RECEIPT_LEAF_V1"

abbrev pub node_domain : Bytes
node_domain = codes "BI_RECEIPT_NODE_V1"

abbrev pub unified_leaf_domain : Bytes
unified_leaf_domain = codes "BI_ARTIFACT_LEAF_V1"

abbrev pub unified_node_domain : Bytes
unified_node_domain = codes "BI_ARTIFACT_NODE_V1"

-- `bytes.fromhex`, with its ValueError.
unfoldable pub bytes_of_hex : Str → Result MerkleError Bytes
bytes_of_hex s = elim (from_hex s) [ none ↦ err bad_hex | some b ↦ ok b ]

-- `[f(h) for h in hs]` where `f` may raise.
unfoldable pub map_result :
    {A B : Type 0} → (A → Result MerkleError B) → List A → Result MerkleError (List B)
map_result f [] = ok []
map_result f (x ∷ xs) = do y ← f x; ys ← map_result f xs; ok (y ∷ ys)

-- One pass of the `while i < len(current)` loop: pairs are joined, an odd last node is promoted.
unfoldable pub next_level : (Bytes → Bytes → Bytes) → List Bytes → List Bytes
next_level node [] = []
next_level node (a ∷ []) = a ∷ []
next_level node (a ∷ b ∷ rest) = node a b ∷ next_level node rest

-- The `while len(current) > 1` loop of `_build_tree`, on fuel: the levels from `current` up.
unfoldable pub build_levels : (Bytes → Bytes → Bytes) → ℕ → List Bytes → List (List Bytes)
unfolding next_level
build_levels node zero current = current ∷ []
build_levels node (suc fuel) current =
    let above = build_levels node fuel (next_level node current) in
    if ltb 1 (length current) then current ∷ above else current ∷ []

unfoldable pub build_tree :
    (Bytes → Bytes → Bytes) → List Bytes → Result MerkleError (List (List Bytes))
unfolding build_levels
build_tree node [] = err empty_batch
build_tree node (l ∷ ls) = ok (build_levels node (length (l ∷ ls)) (l ∷ ls))

-- `level[0]`
unfoldable pub first : List Bytes → Result MerkleError Bytes
first [] = err index_error
first (b ∷ _) = ok b

-- `levels[-1][0]`
unfoldable pub top : List (List Bytes) → Result MerkleError Bytes
unfolding first
top [] = err index_error
top (l ∷ []) = first l
top (l ∷ m ∷ ls) = top (m ∷ ls)

-- The inner loop of `compute_batch_root`: two nodes at a time, or the one that is left.
unfoldable pub next_batch_level : (Bytes → Bytes → Bytes) → List Bytes → List Bytes
next_batch_level node [] = []
next_batch_level node (a ∷ []) = a ∷ []
next_batch_level node (a ∷ b ∷ rest) = node a b ∷ next_batch_level node rest

-- The outer loop of `compute_batch_root`, which keeps the last level only.
unfoldable pub reduce : (Bytes → Bytes → Bytes) → ℕ → List Bytes → List Bytes
unfolding next_batch_level
reduce node zero level = level
reduce node (suc fuel) level =
    let more = reduce node fuel (next_batch_level node level) in
    if ltb 1 (length level) then more else level

abbrev pub sha256_prefix : Str
sha256_prefix = codes "sha256:"

pub record ProofStep : Type 0 where
  pub hash : Str
  pub direction : Str

pub record InclusionProof : Type 0 where
  pub artifact_hash : Str
  pub leaf_index : ℕ
  pub tree_size : ℕ
  pub root : Str
  pub proof : List ProofStep

-- `x in xs` and `xs.index(x)` at once.
unfoldable pub index_of : Str → List Str → Option ℕ
index_of x [] = none
index_of x (y ∷ ys) =
    if str_eq y x then some 0 else elim (index_of x ys) [ none ↦ none | some i ↦ some (suc i) ]

unfoldable pub step_of : Str → Option Bytes → Result MerkleError (List ProofStep)
step_of side none = err index_error
step_of side (some b) = ok (record { hash = hex b; direction = side } ∷ [])

-- The body of the loop over `levels[:-1]`: what it appends to the proof path.
unfoldable pub sibling : List Bytes → ℕ → Result MerkleError (List ProofStep)
unfolding step_of
sibling level idx =
    if idx % 2 == 0
    then if ltb (idx + 1) (length level)
      then step_of (codes "right") (get_elem? level (idx + 1))
      else ok []
    else step_of (codes "left") (get_elem? level (idx - 1))

unfoldable pub proof_path : List (List Bytes) → ℕ → Result MerkleError (List ProofStep)
unfolding sibling
proof_path [] idx = ok []
proof_path (root ∷ []) idx = ok []
proof_path (level ∷ above ∷ levels) idx = do
  here ← sibling level idx
  rest ← proof_path (above ∷ levels) (idx / 2)
  ok (here ++ rest)

module _ (sha256 : Bytes → Bytes) where
  unfoldable pub leaf_hash : Str → Result MerkleError Bytes
  leaf_hash h = do b ← bytes_of_hex h; ok (sha256 (leaf_domain ++ 0 ∷ b))

  unfoldable pub node_hash : Bytes → Bytes → Bytes
  node_hash left right = sha256 (node_domain ++ 0 ∷ (left ++ right))

  unfoldable pub unified_leaf_hash : Str → Result MerkleError Bytes
  unified_leaf_hash h = do b ← bytes_of_hex h; ok (sha256 (unified_leaf_domain ++ 0 ∷ b))

  unfoldable pub unified_node_hash : Bytes → Bytes → Bytes
  unified_node_hash left right = sha256 (unified_node_domain ++ 0 ∷ (left ++ right))

  unfoldable pub compute_batch_root : List Str → Result MerkleError Str
  compute_batch_root [] = err empty_batch
  compute_batch_root (h ∷ hs) = do
    level ← map_result leaf_hash (h ∷ hs)
    root ← first (reduce node_hash (length level) level)
    ok (sha256_prefix ++ hex root)

  unfoldable pub compute_unified_root : List Str → Result MerkleError Str
  compute_unified_root [] = err empty_batch
  compute_unified_root (h ∷ hs) = do
    leaves ← map_result unified_leaf_hash (h ∷ hs)
    levels ← build_tree unified_node_hash leaves
    root ← top levels
    ok (sha256_prefix ++ hex root)

  -- The part of `compute_inclusion_proof` after the index is known.
  unfoldable pub proof_at : List Str → Str → ℕ → Result MerkleError (Option InclusionProof)
  proof_at hashes target i = do
    leaves ← map_result unified_leaf_hash hashes
    levels ← build_tree unified_node_hash leaves
    root ← top levels
    path ← proof_path levels i
    ok (
        some (record {
          artifact_hash = target;
          leaf_index = i;
          tree_size = length hashes;
          root = sha256_prefix ++ hex root;
          proof = path;
        }))

  unfoldable pub compute_inclusion_proof :
      List Str → Str → Result MerkleError (Option InclusionProof)
  compute_inclusion_proof hashes target = elim (index_of target hashes) [
    | none ↦ ok none
    | some i ↦ proof_at hashes target i
  ]

  -- The verifier's walk from a leaf (`verify_inclusion_proofs` of gateway/audit_packet_verifier.py).
  unfoldable pub recompute : Bytes → List ProofStep → Result MerkleError Bytes
  recompute current [] = ok current
  recompute current (step ∷ steps) = do
    sib ← bytes_of_hex step.hash
    recompute
        (if str_eq step.direction (codes "right")
          then unified_node_hash current sib
          else unified_node_hash sib current)
        steps

  unfoldable pub recompute_root : Str → List ProofStep → Result MerkleError Str
  recompute_root target steps = do
    leaf ← unified_leaf_hash target
    root ← recompute leaf steps
    ok (sha256_prefix ++ hex root)
