-- ===== src/Merkle/Leaves.antt =====
-- The leaves of a batch: one 32-byte digest for each artifact hash, at the same place.
use agent_authorization_gate.Base.{
  ℕ, zero, ◌≡◌, refl, some, List, [], ◌∷◌, ok, Bytes, Str, All, from_hex, ◌<◌, Elem, get_elem?,
  here, str_eq_refl, there, Bool-cases, str_eq, inl, ap, str_eq_iff, length, inr, suc, ◌++◌, Result,
  >>=-ok, arith, take, false, Option-cases,
}
use agent_authorization_gate.Merkle.{
  bytes_of_hex, map_result, unified_leaf_hash, index_of, unified_leaf_domain, MerkleError,
}
use agent_authorization_gate.Merkle.Digest.{IsDigest}

-- `bytes.fromhex` reads the text.
abbrev pub IsHex : Str → Type 0
IsHex h = (b : Bytes) × (from_hex h ≡ some b)

abbrev pub IsBytes : Bytes → Type 0
IsBytes b = All (λ x. x < 256) b

-- `xs.index(x)` finds the first place of a text that is in the list.
pub index_of-Elem :
    (x : Str) (xs : List Str)
    → Elem x xs
    → (i : ℕ) × (index_of x xs ≡ some i) × (get_elem? xs i ≡ some x)
unfolding index_of
index_of-Elem x [] m = elim m [ ]
index_of-Elem x (y ∷ ys) (here e) = (0, rw e (rw (str_eq_refl y)), rw e)
index_of-Elem x (y ∷ ys) (there m) =
    let (i, f, g) = index_of-Elem x ys m in
    elim (Bool-cases (str_eq y x)) [
      | inl same ↦ (0, rw same, ap some ((str_eq_iff y x).0 same))
      | inr other ↦ (suc i, rw other (rw f), g)
    ]

-- What a comprehension returns at a place is what its function returns there.
map_result-at :
    {A B : Type 0} (f : A → Result MerkleError B) (xs : List A) (i : ℕ) (x : A) (ys : List B)
    → map_result f xs ≡ ok ys
    → get_elem? xs i ≡ some x
    → (y : B) × (f x ≡ ok y) × (get_elem? ys i ≡ some y)
unfolding map_result
map_result-at f [] i x ys e g = cc
map_result-at f (z ∷ xs) zero x ys e g =
    let (y, p, q) = >>=-ok (f z) _ e in
    let (zs, r, s) = >>=-ok (map_result f xs) _ q in
    let same : z ≡ x = cc in let all : ys ≡ y ∷ zs = cc in (y, rw same at p, rw all)
map_result-at f (z ∷ xs) (suc i) x ys e g =
    let (y, p, q) = >>=-ok (f z) _ e in
    let (zs, r, s) = >>=-ok (map_result f xs) _ q in
    let all : ys ≡ y ∷ zs = cc in
    let (y', a, b) = map_result-at f xs i x zs r g in (y', a, rw all b)

module _ (sha256 : Bytes → Bytes) (digest : IsDigest sha256) where
  leaf-IsBytes : (h : Str) → IsHex h → (c : Bytes) × (unified_leaf_hash sha256 h ≡ ok c) × IsBytes c
  leaf-IsBytes h (b, e) = (
    sha256 (unified_leaf_domain ++ 0 ∷ b),
    unfold unified_leaf_hash bytes_of_hex in ground arith,
    digest.bytes _,
  )

  -- A batch of hexadecimal texts has leaves.
  pub leaves-total :
      (hashes : List Str)
      → All IsHex hashes
      → (leaves : List Bytes) × (map_result (unified_leaf_hash sha256) hashes ≡ ok leaves)
        × All IsBytes leaves
        × (length leaves ≡ length hashes)
  unfolding map_result
  leaves-total [] h = ([], refl, tt, refl)
  leaves-total (x ∷ xs) (hx, hs) =
      let (c, e, b) = leaf-IsBytes x hx in
      let (cs, es, bs, n) = leaves-total xs hs in (c ∷ cs, rw e (rw es), (b, bs), ap suc n)

  -- The leaf at a place is the leaf hash of the text at that place.
  pub leaf_at :
      (hashes : List Str) (i : ℕ) (x : Str) (leaves : List Bytes)
      → map_result (unified_leaf_hash sha256) hashes ≡ ok leaves
      → get_elem? hashes i ≡ some x
      → (c : Bytes) × (unified_leaf_hash sha256 x ≡ ok c) × (get_elem? leaves i ≡ some c)
  leaf_at hashes i x leaves e g = map_result-at (unified_leaf_hash sha256) hashes i x leaves e g

not_earlier :
    (x y : Str) (ys : List Str) (j : ℕ)
    → str_eq y x ≡ false
    → ¬ (Elem x (take j ys))
    → ¬ (Elem x (take (suc j) (y ∷ ys)))
not_earlier x y ys j other n (here e) =
    let same = (str_eq_iff y x).1 cc in absurd (ground (arith, same, other))
not_earlier x y ys j other n (there m) = n m

-- The place that `index_of` finds is the first one.
pub index_of-first :
    (x : Str) (hashes : List Str) (i : ℕ) → index_of x hashes ≡ some i → ¬ (Elem x (take i hashes))
unfolding index_of
index_of-first x [] i e m = cc
index_of-first x (y ∷ ys) i e m = elim (Bool-cases (str_eq y x)) [
  | inl found ↦ let none_before : i ≡ 0 = ground arith in elim (rw none_before at m) [ ]
  | inr other ↦ elim (Option-cases (index_of x ys)) [
    | inl missing ↦ absurd (ground arith)
    | inr (j, later) ↦
        let next : i ≡ suc j = ground arith in
        not_earlier x y ys j other (index_of-first x ys j later) (rw next at m)
  ]
]
