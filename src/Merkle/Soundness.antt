-- ===== src/Merkle/Soundness.antt =====
-- A proof that leads a verifier to the root of a batch is about an artifact of the batch, unless
-- SHA-256 has collided.
use agent_authorization_gate.Base.{
  ◌≡◌, refl, List, [], ◌∷◌, ok, Bytes, Str, All, Elem, Result, >>=-ok, ◌⊎◌, here, ◌++◌, length,
  there, inr, hex, inl, ap, sym, drop, from_hex-hex, ◌∙◌, from_hex, some, subst, Result-cases,
}
use agent_authorization_gate.Merkle.Nodes.{
  Node, leaf, joined, Node-IsBytes, recompute-IsBytes, node_apart, top-Node, descend,
}
use agent_authorization_gate.Merkle.{
  bytes_of_hex, ProofStep, build_tree, unified_leaf_hash, compute_unified_root, map_result,
  unified_leaf_domain, unified_node_hash, sha256_prefix, build_levels, recompute_root, top,
  recompute,
}
use agent_authorization_gate.Merkle.Digest.{IsDigest, Collision, same_input}
use agent_authorization_gate.Merkle.Leaves.{IsBytes}
use agent_authorization_gate.Merkle.Inputs.{
  batch_inputs, leaf_input, walk_inputs, leaf_inputs, tree_inputs, walk_inputs_of, batch_inputs_of,
  leaf_inputs-cons, walk_nodes, Elem-right, Elem-left,
}

-- An artifact hash of the batch stands for the same bytes as the target.
abbrev pub InBatch : List Str → Str → Type 0
InBatch hashes target = (h : Str) × Elem h hashes × (bytes_of_hex h ≡ bytes_of_hex target)

ok-eq {ℓ} : {E : Type 0} {A : Type ℓ} {a b : A} → Path (Result E A) (ok a) (ok b) → a ≡ b
ok-eq e = cc

some-eq : {A : Type 0} {a b : A} → some a ≡ some b → a ≡ b
some-eq e = cc

module _ (sha256 : Bytes → Bytes) (digest : IsDigest sha256) where
  leaf_bytes :
      (h : Str) (c : Bytes)
      → unified_leaf_hash sha256 h ≡ ok c
      → (b : Bytes) × (bytes_of_hex h ≡ ok b) × (c ≡ sha256 (unified_leaf_domain ++ 0 ∷ b))
  unfolding unified_leaf_hash
  leaf_bytes h c e = let (b, p, q) = >>=-ok (bytes_of_hex h) _ e in (b, p, cc)

  no_elem : {A : Type 0} {c : Bytes} → Elem c [] → A
  no_elem m = elim m [ ]

  pick :
      (h : Str) (hs : List Str) (d : Bytes) (ds : List Bytes) (c : Bytes)
      → unified_leaf_hash sha256 h ≡ ok d
      → (Elem c ds → (k : Str) × Elem k hs × (unified_leaf_hash sha256 k ≡ ok c))
      → Elem c (d ∷ ds)
      → (k : Str) × Elem k (h ∷ hs) × (unified_leaf_hash sha256 k ≡ ok c)
  pick h hs d ds c p ih (here e) = (h, here refl, rw e p)
  pick h hs d ds c p ih (there m) = let (k, n, q) = ih m in (k, there n, q)

  -- Every leaf is the leaf hash of an artifact hash of the batch.
  leaf-of :
      (hashes : List Str) (leaves : List Bytes) (c : Bytes)
      → map_result (unified_leaf_hash sha256) hashes ≡ ok leaves
      → Elem c leaves
      → (h : Str) × Elem h hashes × (unified_leaf_hash sha256 h ≡ ok c)
  unfolding map_result
  leaf-of [] leaves c e m = let none_left : leaves ≡ [] = cc in no_elem (rw none_left at m)
  leaf-of (h ∷ hs) leaves c e m =
      let (d, p, q) = >>=-ok (unified_leaf_hash sha256 h) _ e in
      let (ds, r, s) = >>=-ok (map_result (unified_leaf_hash sha256) hs) _ q in
      let all : leaves ≡ d ∷ ds = cc in pick h hs d ds c p (leaf-of hs ds c r) (rw all at m)

  -- The input of an artifact's leaf is one of the inputs of the leaf hashes.
  leaf_hashed :
      (h : Str) (hs : List Str) (b : Bytes)
      → bytes_of_hex h ≡ ok b
      → Elem h hs
      → Elem (leaf_input b) (leaf_inputs hs)
  leaf_hashed h (k ∷ hs) b e (here same) =
      subst (Elem (leaf_input b)) (sym (leaf_inputs-cons k hs b (ap bytes_of_hex (sym same) ∙ e)))
        (here refl)
  leaf_hashed h (k ∷ hs) b e (there m) = elim (Result-cases (bytes_of_hex k)) [
    | inl (c, p) ↦
        subst (Elem (leaf_input b)) (sym (leaf_inputs-cons k hs c p))
          (there (leaf_hashed h hs b e m))
    | inr (x, p) ↦ rw (leaf_inputs, p) (leaf_hashed h hs b e m)
  ]
  leaf_hashed h [] b e m = elim m [ ]

  leaves-Node :
      (batch : List Bytes) (hashes : List Str) (leaves more : List Bytes)
      → map_result (unified_leaf_hash sha256) hashes ≡ ok leaves
      → ((h : Str)
          → Elem h hashes
          → (b : Bytes) → bytes_of_hex h ≡ ok b
          → Elem (leaf_input b) batch)
      → ((c : Bytes) → Elem c leaves → Elem c more)
      → All (Node sha256 batch more) leaves
  unfolding map_result
  leaves-Node batch [] leaves more e g f = let none_left : leaves ≡ [] = cc in rw none_left tt
  leaves-Node batch (h ∷ hs) leaves more e g f =
      let (d, p, q) = >>=-ok (unified_leaf_hash sha256 h) _ e in
      let (ds, r, s) = >>=-ok (map_result (unified_leaf_hash sha256) hs) _ q in
      let all : leaves ≡ d ∷ ds = cc in
      let (b, hb, db) = leaf_bytes h d p in
      rw all (
        leaf (f d (rw all (here refl))) (b, g h (here refl) b hb, db),
        leaves-Node batch hs ds more r (λ k m. g k (there m)) (λ c m. f c (rw all (there m))),
      )

  batch_hashed :
      (hashes : List Str) (leaves : List Bytes)
      → map_result (unified_leaf_hash sha256) hashes ≡ ok leaves
      → (h : Str) → Elem h hashes
      → (b : Bytes) → bytes_of_hex h ≡ ok b
      → Elem (leaf_input b) (batch_inputs sha256 hashes)
  batch_hashed hashes leaves p h m b e =
      subst (Elem (leaf_input b)) (sym (batch_inputs_of sha256 hashes leaves p)) (
        Elem-left (leaf_inputs hashes) (tree_inputs sha256 (length leaves) leaves)
          (leaf_hashed h hashes b e m))

  -- What a returned root stands for: a node of the tree over the leaves.
  abbrev Rooted : List Str → Str → Type 0
  Rooted hashes root =
      (leaves : List Bytes) × (top : Bytes) × (map_result (unified_leaf_hash sha256) hashes
        ≡ ok leaves)
      × Node sha256 (batch_inputs sha256 hashes) leaves top
      × (root ≡ sha256_prefix ++ hex top)

  build_tree-eq :
      (node : Bytes → Bytes → Bytes) (leaves : List Bytes) (levels : List (List Bytes))
      → build_tree node leaves ≡ ok levels
      → build_levels node (length leaves) leaves ≡ levels
  unfolding build_tree
  build_tree-eq node [] levels e = cc
  build_tree-eq node (l ∷ ls) levels e = cc

  rooted :
      (hashes : List Str) (root : Str)
      → compute_unified_root sha256 hashes ≡ ok root
      → Rooted hashes root
  unfolding compute_unified_root
  rooted [] root e = cc
  rooted (h ∷ hs) root e =
      let node = unified_node_hash sha256 in
      let (leaves, p, q) = >>=-ok (map_result (unified_leaf_hash sha256) (h ∷ hs)) _ e in
      let (levels, r, s) = >>=-ok (build_tree node leaves) _ q in
      let (b, t, u) = >>=-ok (top levels) _ s in
      let t' : top (build_levels node (length leaves) leaves) ≡ ok b =
        ap top (build_tree-eq node leaves levels r) ∙ t in
      let batch = batch_inputs sha256 (h ∷ hs) in
      let lefts = leaf_inputs (h ∷ hs) in
      let above = tree_inputs sha256 (length leaves) leaves in
      let parts = sym (batch_inputs_of sha256 (h ∷ hs) leaves p) in
      (
        leaves,
        b,
        p,
        top-Node sha256 digest batch leaves (length leaves) leaves b
            (λ x m. subst (Elem x) parts (Elem-right lefts above m))
            (leaves-Node batch (h ∷ hs) leaves leaves p (batch_hashed (h ∷ hs) leaves p) (λ c m. m))
            t',
        cc,
      )

  -- Equal printed roots are equal digests.
  same_root :
      (a b : Bytes)
      → IsBytes a
      → IsBytes b
      → sha256_prefix ++ hex a ≡ sha256_prefix ++ hex b
      → a ≡ b
  same_root a b p q e =
      let h : hex a ≡ hex b = ap (λ (t : Str). drop 7 t) e in
      some-eq (sym (from_hex-hex a p) ∙ ap from_hex h ∙ from_hex-hex b q)

  -- The node where a walk began, as an artifact of the batch.
  start-InBatch :
      (hashes : List Str) (target : Str) (leaves batch walk : List Bytes) (c b : Bytes)
      → map_result (unified_leaf_hash sha256) hashes ≡ ok leaves
      → bytes_of_hex target ≡ ok b
      → c ≡ sha256 (leaf_input b)
      → Elem (leaf_input b) walk
      → ((h : Str)
          → Elem h hashes
          → (x : Bytes) → bytes_of_hex h ≡ ok x
          → Elem (leaf_input x) batch)
      → Node sha256 batch leaves c ⊎ Collision sha256 batch walk
      → InBatch hashes target ⊎ Collision sha256 batch walk
  start-InBatch hashes target leaves batch walk c b p tb cb w g (inr k) = inr k
  start-InBatch hashes target leaves batch walk c b p tb cb w g (inl (joined l r x y i e)) =
      inr (node_apart sha256 digest batch walk leaves l r b i w (sym e ∙ cb))
  start-InBatch hashes target leaves batch walk c b p tb cb w g (inl (leaf m _)) =
      let (h, n, hc) = leaf-of hashes leaves c p m in
      let (d, hd, cd) = leaf_bytes h c hc in
      elim (same_input sha256 batch walk _ _ (g h n d hd) w (sym cd ∙ cb)) [
        | inl same ↦
            let e : d ≡ b = ap (λ (t : Bytes). drop 20 t) same in inl (h, n, hd ∙ ap ok e ∙ sym tb)
        | inr k ↦ inr k
      ]

  -- A proof whose walk ends in the root of the batch is about an artifact hash of the batch: one of
  -- them stands for the same bytes as the target, or SHA-256 gives one digest to two different inputs,
  -- one that was hashed for the root of the batch and one that was hashed on the walk.
  pub inclusion_proof_sound :
      (hashes : List Str) (target root : Str) (steps : List ProofStep)
      → compute_unified_root sha256 hashes ≡ ok root
      → recompute_root sha256 target steps ≡ ok root
      → InBatch hashes target
        ⊎ Collision sha256 (batch_inputs sha256 hashes) (walk_inputs sha256 target steps)
  unfolding recompute_root
  inclusion_proof_sound hashes target root steps e r =
      let (leaves, b, p, t, rb) = rooted hashes root e in
      let (c, lc, q) = >>=-ok (unified_leaf_hash sha256 target) _ r in
      let (d, w, rd) = >>=-ok (recompute sha256 c steps) _ q in
      let (x, tx, cx) = leaf_bytes target c lc in
      let batch = batch_inputs sha256 hashes in
      let walk = walk_inputs sha256 target steps in
      let walked = sym (walk_inputs_of sha256 target steps x tx) in
      let same : b ≡ d =
        same_root b d (Node-IsBytes sha256 digest batch leaves t)
          (recompute-IsBytes sha256 digest batch leaves steps c d (rw cx (digest.bytes _)) w)
          (sym rb ∙ ok-eq (sym rd)) in
      let first = subst (Elem (leaf_input x)) walked (here refl) in
      start-InBatch hashes target leaves batch walk c x p tx cx first (batch_hashed hashes leaves p)
        (descend sha256 digest batch walk leaves steps c d
          (λ y m.
            subst (Elem y) walked (there (subst (λ n. Elem y (walk_nodes sha256 n steps)) cx m)))
          (rw cx (digest.size _)) w (rw same at t))
