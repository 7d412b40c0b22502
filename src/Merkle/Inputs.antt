-- ===== src/Merkle/Inputs.antt =====
-- What SHA-256 is called on: by `compute_unified_root` of gateway/merkle.py on a batch, and by the
-- verifier's walk along a proof.
use agent_authorization_gate.Base.{
  ℕ, zero, suc, List, [], ◌∷◌, ◌++◌, ok, err, Str, Bytes, codes, str_eq, length, ltb, Elem, here,
  there, if◌then◌else◌, ◌≡◌, true, false, refl,
}
use agent_authorization_gate.Merkle.{
  ProofStep, bytes_of_hex, map_result, next_level, unified_leaf_domain, unified_node_domain,
  unified_leaf_hash, unified_node_hash,
}

abbrev pub leaf_input : Bytes → Bytes
leaf_input b = unified_leaf_domain ++ 0 ∷ b

abbrev pub node_input : Bytes → Bytes → Bytes
node_input left right = unified_node_domain ++ 0 ∷ (left ++ right)

-- The inputs of the leaf hashes; a text that is not hexadecimal has none.
abbrev pub leaf_inputs : List Str → List Bytes
leaf_inputs [] = []
leaf_inputs (h ∷ hashes) = elim (bytes_of_hex h) [
  | err _ ↦ leaf_inputs hashes
  | ok b ↦ leaf_input b ∷ leaf_inputs hashes
]

-- The inputs of the node hashes between a level and the next one.
abbrev pub level_inputs : List Bytes → List Bytes
level_inputs [] = []
level_inputs (a ∷ []) = []
level_inputs (a ∷ b ∷ rest) = node_input a b ∷ level_inputs rest

pub Elem-left {ℓ} : {A : Type ℓ} {x : A} (xs ys : List A) → Elem x xs → Elem x (xs ++ ys)
Elem-left [] ys m = elim m [ ]
Elem-left (y ∷ xs) ys (here e) = here e
Elem-left (y ∷ xs) ys (there m) = there (Elem-left xs ys m)

pub Elem-right {ℓ} : {A : Type ℓ} {x : A} (xs ys : List A) → Elem x ys → Elem x (xs ++ ys)
Elem-right [] ys m = m
Elem-right (y ∷ xs) ys m = there (Elem-right xs ys m)

module _ (sha256 : Bytes → Bytes) where
  -- The inputs of the node hashes of a tree with this lowest level.
  abbrev pub tree_inputs : ℕ → List Bytes → List Bytes
  tree_inputs zero level = []
  tree_inputs (suc fuel) level =
      let above = tree_inputs fuel (next_level (unified_node_hash sha256) level) in
      if ltb 1 (length level) then level_inputs level ++ above else []

  abbrev pub batch_inputs : List Str → List Bytes
  batch_inputs hashes = elim (map_result (unified_leaf_hash sha256) hashes) [
    | err _ ↦ leaf_inputs hashes
    | ok leaves ↦ leaf_inputs hashes ++ tree_inputs (length leaves) leaves
  ]

  -- The inputs of the node hashes of a walk from a node.
  abbrev pub walk_nodes : Bytes → List ProofStep → List Bytes
  walk_nodes current [] = []
  walk_nodes current (step ∷ steps) = elim (bytes_of_hex step.hash) [
    | err _ ↦ []
    | ok sib ↦
        if str_eq step.direction (codes "right")
        then node_input current sib ∷ walk_nodes (unified_node_hash sha256 current sib) steps
        else node_input sib current ∷ walk_nodes (unified_node_hash sha256 sib current) steps
  ]

  abbrev pub walk_inputs : Str → List ProofStep → List Bytes
  walk_inputs target steps = elim (bytes_of_hex target) [
    | err _ ↦ []
    | ok b ↦ leaf_input b ∷ walk_nodes (sha256 (leaf_input b)) steps
  ]

  pub walk_right :
      (c sib : Bytes) (s : ProofStep) (steps : List ProofStep)
      → bytes_of_hex s.hash ≡ ok sib
      → str_eq s.direction (codes "right") ≡ true
      → walk_nodes c (s ∷ steps)
        ≡ node_input c sib ∷ walk_nodes (unified_node_hash sha256 c sib) steps
  walk_right c sib s steps p right = rw (walk_nodes, p, right) refl

  pub walk_left :
      (c sib : Bytes) (s : ProofStep) (steps : List ProofStep)
      → bytes_of_hex s.hash ≡ ok sib
      → str_eq s.direction (codes "right") ≡ false
      → walk_nodes c (s ∷ steps)
        ≡ node_input sib c ∷ walk_nodes (unified_node_hash sha256 sib c) steps
  walk_left c sib s steps p left = rw (walk_nodes, p, left) refl

  pub batch_inputs_of :
      (hashes : List Str) (leaves : List Bytes)
      → map_result (unified_leaf_hash sha256) hashes ≡ ok leaves
      → batch_inputs hashes ≡ leaf_inputs hashes ++ tree_inputs (length leaves) leaves
  batch_inputs_of hashes leaves e = rw (batch_inputs, e) refl

  pub walk_inputs_of :
      (target : Str) (steps : List ProofStep) (b : Bytes)
      → bytes_of_hex target ≡ ok b
      → walk_inputs target steps ≡ leaf_input b ∷ walk_nodes (sha256 (leaf_input b)) steps
  walk_inputs_of target steps b e = rw (walk_inputs, e) refl

pub leaf_inputs-cons :
    (h : Str) (hashes : List Str) (b : Bytes)
    → bytes_of_hex h ≡ ok b
    → leaf_inputs (h ∷ hashes) ≡ leaf_input b ∷ leaf_inputs hashes
leaf_inputs-cons h hashes b e = rw (leaf_inputs, e) refl
