-- ===== src/Merkle/Digest.antt =====
-- What gateway/merkle.py relies on of SHA-256: digests of 32 bytes. Nothing is assumed of collisions:
-- the theorems that need them away return the collision instead.
use mathlib.Core.Logic.{◌≢◌}
use agent_authorization_gate.Base.{
  ◌<◌, ◌≡◌, refl, ap, ◌⊎◌, inl, inr, [], ◌∷◌, ◌++◌, Bytes, str_eq, str_eq_iff, Bool-cases, All,
  Elem, List, length, length-append, arith,
}

-- SHA-256 returns 32 bytes.
pub record IsDigest (sha256 : Bytes → Bytes) : Type 0 where
  pub size : (b : Bytes) → length (sha256 b) ≡ 32
  pub bytes : (b : Bytes) → All (λ x. x < 256) (sha256 b)

-- Two different inputs with one digest, one from each list.
pub record Collision (sha256 : Bytes → Bytes) (xs ys : List Bytes) : Type 0 where
  pub left : Bytes
  pub right : Bytes
  pub left_hashed : Elem left xs
  pub right_hashed : Elem right ys
  pub differ : left ≢ right
  pub same : sha256 left ≡ sha256 right

-- Equal digests come from one input, or from a collision.
pub same_input :
    (sha256 : Bytes → Bytes) (xs ys : List Bytes) (a b : Bytes)
    → Elem a xs
    → Elem b ys
    → sha256 a ≡ sha256 b
    → (a ≡ b) ⊎ Collision sha256 xs ys
same_input sha256 xs ys a b m n e = elim (Bool-cases (str_eq a b)) [
  | inl same ↦ inl ((str_eq_iff a b).0 same)
  | inr other ↦ inr (record {
    left = a;
    right = b;
    left_hashed = m;
    right_hashed = n;
    differ = λ p. cc (other, (str_eq_iff a b).1 p);
    same = e;
  })
]

-- Lists of equal length that begin two equal texts are equal, and so is what follows them.
pub append-split : (a b c d : Bytes) → a ++ b ≡ c ++ d → length a ≡ length c → (a ≡ c) × (b ≡ d)
append-split [] b [] d e n = (refl, e)
append-split [] b (y ∷ c) d e n = absurd (omega arith)
append-split (x ∷ a) b [] d e n = absurd (omega arith)
append-split (x ∷ a) b (y ∷ c) d e n =
    let ih = append-split a b c d (cc) (omega arith) in ground (arith, ih)

pub append-split_right :
    (a b c d : Bytes) → a ++ b ≡ c ++ d → length b ≡ length d → (a ≡ c) × (b ≡ d)
append-split_right a b c d e n =
    append-split a b c d e
      (omega (arith, length-append a b, length-append c d, ap (λ (l : Bytes). length l) e, n))
