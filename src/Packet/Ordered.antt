-- ===== src/Packet/Ordered.antt =====
-- The order of the receipts that gateway/audit_packet_verifier.py gets from `sorted` with its key,
-- described without a sort.
use agent_authorization_gate.Base.{
  ◌≡◌, ◌≢◌, refl, sym, ap, ◌∙◌, Bool, true, false, Bool-cases, inl, inr, List, [], ◌∷◌, ok, All,
  arith, ◌≤◌, filter, leb, ◌&&◌,
}
use agent_authorization_gate.Base.Int.{ℤ, pos, negsuc}
use agent_authorization_gate.Packet.{Envelope}
use agent_authorization_gate.Packet.Links.{seq_of, le_int, place}

-- The number of each receipt is the value of its text `seq`.
abbrev pub Numbered : List Envelope → List (ℤ × Envelope) → Type 0
Numbered [] [] = Unit {0}
Numbered [] (p ∷ ps) = ⊥
Numbered (e ∷ es) [] = ⊥
Numbered (e ∷ es) ((n, f) ∷ ps) = (e ≡ f) × (seq_of e ≡ ok n) × Numbered es ps

-- The order of the integers.
abbrev pub AtMost : ℤ → ℤ → Type 0
AtMost (pos m) (pos n) = m ≤ n
AtMost (negsuc m) (pos n) = Unit
AtMost (pos m) (negsuc n) = ⊥
AtMost (negsuc m) (negsuc n) = n ≤ m

abbrev pub Ascending : List (ℤ × Envelope) → Type 0
Ascending [] = Unit {0}
Ascending (p ∷ ps) = All (λ q. AtMost p.0 q.0) ps × Ascending ps

abbrev pub same_number : ℤ → ℤ → Bool
same_number (pos m) (pos n) = leb m n && leb n m
same_number (negsuc m) (negsuc n) = leb m n && leb n m
same_number (pos m) (negsuc n) = false
same_number (negsuc m) (pos n) = false

-- The receipts with one number, in the order of the list.
abbrev pub with_number : ℤ → List (ℤ × Envelope) → List (ℤ × Envelope)
with_number k ps = filter (λ p. same_number k p.0) ps

-- A list has the receipts by rising numbers, and those with one number in their order in the packet.
abbrev pub InOrder : List Envelope → List (ℤ × Envelope) → Type 0
InOrder es sorted =
    Ascending sorted
    × ((numbered : List (ℤ × Envelope)) × Numbered es numbered
        × ((k : ℤ) → with_number k sorted ≡ with_number k numbered))

AtMost-true : (m n : ℤ) → le_int m n ≡ true → AtMost m n
unfolding le_int
AtMost-true (pos m) (pos n) h = ground arith
AtMost-true (negsuc m) (pos n) h = tt
AtMost-true (pos m) (negsuc n) h = ground arith
AtMost-true (negsuc m) (negsuc n) h = ground arith

AtMost-false : (m n : ℤ) → le_int m n ≡ false → AtMost n m
unfolding le_int
AtMost-false (pos m) (pos n) h = ground arith
AtMost-false (negsuc m) (pos n) h = ground arith
AtMost-false (pos m) (negsuc n) h = tt
AtMost-false (negsuc m) (negsuc n) h = ground arith

AtMost-trans : (a b c : ℤ) → AtMost a b → AtMost b c → AtMost a c
AtMost-trans (pos a) (pos b) (pos c) h k = omega arith
AtMost-trans (negsuc a) (pos b) (pos c) h k = tt
AtMost-trans (negsuc a) (negsuc b) (pos c) h k = tt
AtMost-trans (negsuc a) (negsuc b) (negsuc c) h k = omega arith
AtMost-trans (pos a) (negsuc b) c h k = absurd h
AtMost-trans a (pos b) (negsuc c) h k = absurd k

pub AtMost-refl : (a : ℤ) → AtMost a a
AtMost-refl (pos a) = omega arith
AtMost-refl (negsuc a) = omega arith

pub AtMost-both : (a b : ℤ) → AtMost a b → AtMost b a → a ≡ b
AtMost-both (pos a) (pos b) h k = ap pos (omega arith)
AtMost-both (negsuc a) (negsuc b) h k = ap negsuc (omega arith)
AtMost-both (pos a) (negsuc b) h k = absurd h
AtMost-both (negsuc a) (pos b) h k = absurd k

pub same_number-true : (a b : ℤ) → same_number a b ≡ true → a ≡ b
same_number-true (pos a) (pos b) h = ap pos (ground arith)
same_number-true (negsuc a) (negsuc b) h = ap negsuc (ground arith)
same_number-true (pos a) (negsuc b) h = ground arith
same_number-true (negsuc a) (pos b) h = ground arith

pub same_number_self : (a : ℤ) → same_number a a ≡ true
same_number_self (pos a) = ground arith
same_number_self (negsuc a) = ground arith

self_above : (n : ℤ) → le_int n n ≢ false
unfolding le_int
self_above (pos n) e = ground arith
self_above (negsuc n) e = ground arith

not_both : (k m n : ℤ) → le_int n m ≡ false → same_number k m ≡ true → same_number k n ≡ false
not_both k m n h a = elim (Bool-cases (same_number k n)) [
  | inr other ↦ other
  | inl b ↦
      let e : m ≡ n = sym (same_number-true k m a) ∙ same_number-true k n b in
      absurd (self_above n (rw e at h))
]

module _ (n : ℤ) (e : Envelope) where
  All-place :
      (P : ℤ × Envelope → Type 0) (ps : List (ℤ × Envelope))
      → P (n, e)
      → All P ps
      → All P (place n e ps)
  unfolding place
  All-place P [] h k = (h, tt)
  All-place P ((m, f) ∷ ps) h (k, ks) = elim (Bool-cases (le_int n m)) [
    | inl le ↦ rw le (h, (k, ks))
    | inr gt ↦ rw gt (k, All-place P ps h ks)
  ]

  All-above :
      (m : ℤ) (ps : List (ℤ × Envelope))
      → AtMost n m
      → All (λ q. AtMost m q.0) ps
      → All (λ q. AtMost n q.0) ps
  All-above m [] h k = tt
  All-above m (q ∷ ps) h (k, ks) = (AtMost-trans n m q.0 h k, All-above m ps h ks)

  pub Ascending-place : (ps : List (ℤ × Envelope)) → Ascending ps → Ascending (place n e ps)
  unfolding place
  Ascending-place [] a = (tt, tt)
  Ascending-place ((m, f) ∷ ps) (above, a) = elim (Bool-cases (le_int n m)) [
    | inl le ↦ let h = AtMost-true n m le in rw le ((h, All-above m ps h above), (above, a))
    | inr gt ↦
        rw gt (All-place (λ q. AtMost m q.0) ps (AtMost-false n m gt) above, Ascending-place ps a)
  ]

  pub with_number-place :
      (k : ℤ) (ps : List (ℤ × Envelope))
      → with_number k (place n e ps) ≡ with_number k ((n, e) ∷ ps)
  unfolding place
  with_number-place k [] = refl
  with_number-place k ((m, f) ∷ ps) = elim (Bool-cases (le_int n m)) [
    | inl le ↦ rw le refl
    | inr gt ↦ elim (Bool-cases (same_number k m)) [
      | inl here ↦
          let other = not_both k m n gt here in let rest = with_number-place k ps in ground arith
      | inr there ↦ let rest = with_number-place k ps in ground arith
    ]
  ]
