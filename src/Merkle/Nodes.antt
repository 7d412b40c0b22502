-- ===== src/Merkle/Nodes.antt =====
-- The nodes of a tree: what the tree loops keep, and what a step of a verifier's walk says of them.
use agent_authorization_gate.Base.{
  ℕ, zero, none, some, refl, >>=-ok, Bool-cases, str_eq, codes, ◌≡◌, List, [], ◌∷◌, ok, Bytes, All,
  length, Elem, ◌++◌, suc, ◌⊎◌, inl, inr, ltb, ap, sym, ◌∙◌, get_elem?, drop, arith, here, there,
  subst,
}
use agent_authorization_gate.Merkle.{
  unified_node_hash, next_level, recompute, ProofStep, first, unified_leaf_domain,
  unified_node_domain, bytes_of_hex, build_levels, top,
}
use agent_authorization_gate.Merkle.Digest.{
  IsDigest, Collision, same_input, append-split, append-split_right,
}
use agent_authorization_gate.Merkle.Leaves.{IsBytes}
use agent_authorization_gate.Merkle.Inputs.{
  leaf_input, node_input, level_inputs, walk_nodes, tree_inputs, Elem-right, Elem-left, walk_right,
  walk_left,
}
use agent_authorization_gate.Merkle.Levels.{top-cons}

-- `batch` and `walk` are the inputs that the batch and the walk have hashed.
module _ (sha256 : Bytes → Bytes) (batch : List Bytes) where
  -- A digest of a leaf's input that the batch has hashed.
  abbrev pub IsLeaf : Bytes → Type 0
  IsLeaf v = (b : Bytes) × Elem (leaf_input b) batch × (v ≡ sha256 (leaf_input b))

  -- The nodes of the tree over some leaves: a leaf, or the node hash of two nodes that was computed.
  pub data Node (leaves : List Bytes) : Bytes → Type 0 where
    leaf : {v : Bytes} → Elem v leaves → IsLeaf v → Node leaves v
    joined :
        {v : Bytes} (l r : Bytes)
        → Node leaves l
        → Node leaves r
        → Elem (node_input l r) batch
        → v ≡ unified_node_hash sha256 l r
        → Node leaves v

-- The code point at place 12, where the two domain tags differ.
abbrev at_12 : Bytes → ℕ
at_12 b = elim (get_elem? b 12) [ none ↦ 0 | some x ↦ x ]

tags_differ : (x y : Bytes) → unified_leaf_domain ++ x ≡ unified_node_domain ++ y → ⊥
tags_differ x y e = omega (arith, ap at_12 e)

module _ (sha256 : Bytes → Bytes) (digest : IsDigest sha256) (batch leaves : List Bytes) where
  next_level-Node :
      (level : List Bytes)
      → ((x : Bytes) → Elem x (level_inputs level) → Elem x batch)
      → All (Node sha256 batch leaves) level
      → All (Node sha256 batch leaves) (next_level (unified_node_hash sha256) level)
  unfolding next_level
  next_level-Node [] f h = h
  next_level-Node (a ∷ []) f h = h
  next_level-Node (a ∷ b ∷ rest) f h = (
    joined a b h.0 h.1.0 (f _ (here refl)) refl,
    next_level-Node rest (λ x m. f x (there m)) h.1.1,
  )

  first-Node :
      (level : List Bytes) (r : Bytes)
      → All (Node sha256 batch leaves) level
      → first level ≡ ok r
      → Node sha256 batch leaves r
  unfolding first
  first-Node [] r h e = cc
  first-Node (a ∷ rest) r h e = let same : a ≡ r = cc in rw same at h.0

  -- The top of the levels over some nodes is a node.
  pub top-Node :
      (fuel : ℕ) (level : List Bytes) (r : Bytes)
      → ((x : Bytes) → Elem x (tree_inputs sha256 fuel level) → Elem x batch)
      → All (Node sha256 batch leaves) level
      → top (build_levels (unified_node_hash sha256) fuel level) ≡ ok r
      → Node sha256 batch leaves r
  unfolding build_levels
  top-Node zero level r f h t = first-Node level r h (unfold top in t)
  top-Node (suc fuel) level r f h t = elim (Bool-cases (ltb 1 (length level))) [
    | inl more ↦
        let node = unified_node_hash sha256 in
        let above = next_level node level in
        let rest = tree_inputs sha256 fuel above in
        top-Node fuel above r (λ x m. f x (rw more (Elem-right (level_inputs level) rest m)))
          (next_level-Node level (λ x m. f x (rw more (Elem-left (level_inputs level) rest m))) h)
          (sym (top-cons node level fuel above) ∙ (rw more at t))
    | inr done ↦ first-Node level r h (unfold top in rw done at t)
  ]

  Node-size : {v : Bytes} → Node sha256 batch leaves v → length v ≡ 32
  Node-size (leaf m (b, n, e)) = rw e (digest.size _)
  Node-size (joined l r p q n e) = rw e (unfold unified_node_hash in digest.size _)

  pub Node-IsBytes : {v : Bytes} → Node sha256 batch leaves v → IsBytes v
  Node-IsBytes (leaf m (b, n, e)) = rw e (digest.bytes _)
  Node-IsBytes (joined l r p q n e) = rw e (unfold unified_node_hash in digest.bytes _)

  node-size : (l r : Bytes) → length (unified_node_hash sha256 l r) ≡ 32
  unfolding unified_node_hash
  node-size l r = digest.size _

  node-IsBytes : (l r : Bytes) → IsBytes (unified_node_hash sha256 l r)
  unfolding unified_node_hash
  node-IsBytes l r = digest.bytes _

  pub recompute-IsBytes :
      (steps : List ProofStep) (c root : Bytes)
      → IsBytes c
      → recompute sha256 c steps ≡ ok root
      → IsBytes root
  unfolding recompute
  recompute-IsBytes [] c root b e = let same : c ≡ root = cc in rw same at b
  recompute-IsBytes (s ∷ steps) c root b e =
      let (sib, p, q) = >>=-ok (bytes_of_hex s.hash) _ e in
      elim (Bool-cases (str_eq s.direction (codes "right"))) [
        | inl right ↦
            recompute-IsBytes steps (unified_node_hash sha256 c sib) root (node-IsBytes c sib)
              (rw right at q)
        | inr left ↦
            recompute-IsBytes steps (unified_node_hash sha256 sib c) root (node-IsBytes sib c)
              (rw left at q)
      ]

module _ (sha256 : Bytes → Bytes) (digest : IsDigest sha256) (batch walk leaves : List Bytes) where
  -- A leaf of the batch is no inner node of the walk.
  leaf_apart :
      (x a b : Bytes)
      → Elem (leaf_input x) batch
      → Elem (node_input a b) walk
      → sha256 (leaf_input x) ≡ unified_node_hash sha256 a b
      → Collision sha256 batch walk
  unfolding unified_node_hash
  leaf_apart x a b m n e = elim (same_input sha256 batch walk _ _ m n e) [
    | inl same ↦ absurd (tags_differ _ _ same)
    | inr c ↦ c
  ]

  -- An inner node of the batch is no leaf of the walk.
  pub node_apart :
      (l r x : Bytes)
      → Elem (node_input l r) batch
      → Elem (leaf_input x) walk
      → unified_node_hash sha256 l r ≡ sha256 (leaf_input x)
      → Collision sha256 batch walk
  unfolding unified_node_hash
  node_apart l r x m n e = elim (same_input sha256 batch walk _ _ m n e) [
    | inl same ↦ absurd (tags_differ _ _ (sym same))
    | inr c ↦ c
  ]

  -- The node hash of 32-byte nodes determines them.
  node_parts :
      (l r a b : Bytes)
      → Elem (node_input l r) batch
      → Elem (node_input a b) walk
      → (length l ≡ length a) ⊎ (length r ≡ length b)
      → unified_node_hash sha256 l r ≡ unified_node_hash sha256 a b
      → ((l ≡ a) × (r ≡ b)) ⊎ Collision sha256 batch walk
  unfolding unified_node_hash
  node_parts l r a b m k (inl n) e = elim (same_input sha256 batch walk _ _ m k e) [
    | inl same ↦ inl (append-split l r a b (ap (λ (t : Bytes). drop 20 t) same) n)
    | inr c ↦ inr c
  ]
  node_parts l r a b m k (inr n) e = elim (same_input sha256 batch walk _ _ m k e) [
    | inl same ↦ inl (append-split_right l r a b (ap (λ (t : Bytes). drop 20 t) same) n)
    | inr c ↦ inr c
  ]

  -- If the node hash of two texts is in the tree, so is each of them that has 32 bytes.
  left_child :
      (a b v : Bytes)
      → Elem (node_input a b) walk
      → v ≡ unified_node_hash sha256 a b
      → length a ≡ 32
      → Node sha256 batch leaves v
      → Node sha256 batch leaves a ⊎ Collision sha256 batch walk
  left_child a b v k e n (leaf m (x, i, p)) = inr (leaf_apart x a b i k (sym p ∙ e))
  left_child a b v k e n (joined l r p q i s) =
      elim (node_parts l r a b i k (inl (omega (arith, Node-size sha256 digest batch leaves p)))
        (sym s ∙ e)) [ inl same ↦ inl (rw same.0 at p) | inr c ↦ inr c ]

  right_child :
      (a b v : Bytes)
      → Elem (node_input a b) walk
      → v ≡ unified_node_hash sha256 a b
      → length b ≡ 32
      → Node sha256 batch leaves v
      → Node sha256 batch leaves b ⊎ Collision sha256 batch walk
  right_child a b v k e n (leaf m (x, i, p)) = inr (leaf_apart x a b i k (sym p ∙ e))
  right_child a b v k e n (joined l r p q i s) =
      elim (node_parts l r a b i k (inr (omega (arith, Node-size sha256 digest batch leaves q)))
        (sym s ∙ e)) [ inl same ↦ inl (rw same.1 at q) | inr c ↦ inr c ]

  through_left :
      (c sib : Bytes)
      → Elem (node_input c sib) walk
      → length c ≡ 32
      → Node sha256 batch leaves (unified_node_hash sha256 c sib) ⊎ Collision sha256 batch walk
      → Node sha256 batch leaves c ⊎ Collision sha256 batch walk
  through_left c sib k n (inl t) = left_child c sib _ k refl n t
  through_left c sib k n (inr x) = inr x

  through_right :
      (c sib : Bytes)
      → Elem (node_input sib c) walk
      → length c ≡ 32
      → Node sha256 batch leaves (unified_node_hash sha256 sib c) ⊎ Collision sha256 batch walk
      → Node sha256 batch leaves c ⊎ Collision sha256 batch walk
  through_right c sib k n (inl t) = right_child sib c _ k refl n t
  through_right c sib k n (inr x) = inr x

  -- Down the path from a node of the tree: its start is in the tree too.
  pub descend :
      (steps : List ProofStep) (c root : Bytes)
      → ((x : Bytes) → Elem x (walk_nodes sha256 c steps) → Elem x walk)
      → length c ≡ 32
      → recompute sha256 c steps ≡ ok root
      → Node sha256 batch leaves root
      → Node sha256 batch leaves c ⊎ Collision sha256 batch walk
  unfolding recompute
  descend [] c root f n e t = let same : root ≡ c = cc in inl (rw same at t)
  descend (s ∷ steps) c root f n e t =
      let (sib, p, q) = >>=-ok (bytes_of_hex s.hash) _ e in
      elim (Bool-cases (str_eq s.direction (codes "right"))) [
        | inl right ↦
            let w = walk_right sha256 c sib s steps p right in
            through_left c sib (f _ (subst (Elem (node_input c sib)) (sym w) (here refl))) n (
              descend steps (unified_node_hash sha256 c sib) root
                (λ x m. f x (subst (Elem x) (sym w) (there m)))
                (node-size sha256 digest batch leaves c sib) (rw right at q) t)
        | inr left ↦
            let w = walk_left sha256 c sib s steps p left in
            through_right c sib (f _ (subst (Elem (node_input sib c)) (sym w) (here refl))) n (
              descend steps (unified_node_hash sha256 sib c) root
                (λ x m. f x (subst (Elem x) (sym w) (there m)))
                (node-size sha256 digest batch leaves sib c) (rw left at q) t)
      ]
