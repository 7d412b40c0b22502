-- ===== src/Packet/Chained.antt =====
-- What a passing report of gateway/audit_packet_verifier.py says of the hash chain.
use agent_authorization_gate.Base.{
  ◌≡◌, refl, sym, ap, ◌∙◌, Bool, true, false, not, ◌||◌, Bool-cases, ◌⊎◌, inl, inr, List, [], ◌∷◌,
  ok, >>=-ok, Str, str_eq, str_eq_iff, str_eq_refl, arith, if◌then◌else◌,
}
use agent_authorization_gate.Verify.Linked.{is_text-true}
use agent_authorization_gate.Packet.Links.{
  check_sorted, note_link, check_links, chain_skip, chain_good, chain_bad, prev_of,
}
use agent_authorization_gate.Canonical.{Value}
use agent_authorization_gate.Verify.{is_text}
use agent_authorization_gate.Base.Int.{ℤ}
use agent_authorization_gate.Packet.{
  VerificationReport, passed, is_truthy, Envelope, text_or_empty, slice, genesis_prev_receipt,
}
use agent_authorization_gate.Packet.Passing.{Passes}

-- A receipt links to the hash before it, unless one of the two is missing.
abbrev pub LinkOk : Str → Value → Type 0
LinkOk prev_hash curr_prev =
    (prev_hash ≡ []) ⊎ (is_truthy curr_prev ≡ false) ⊎ (curr_prev ≡ Value.str prev_hash)

-- Each receipt of a list links to the one before it.
abbrev pub Chained : Str → List (ℤ × Envelope) → Type 0
Chained prev_hash [] = Unit {0}
Chained prev_hash ((_, e) ∷ rest) =
    LinkOk prev_hash (prev_of e) × Chained (text_or_empty e.receipt_hash) rest

-- The same, from the first receipt on.
abbrev pub ChainedSorted : List (ℤ × Envelope) → Type 0
ChainedSorted [] = Unit {0}
ChainedSorted ((_, e) ∷ rest) = Chained (text_or_empty e.receipt_hash) rest

is_text-str : (s : Str) → is_text (Value.str s) s ≡ true
unfolding is_text
is_text-str s = str_eq_refl s

passed-skip : (r : VerificationReport) → passed (chain_skip r) ≡ passed r
unfolding passed chain_skip
passed-skip r = refl

passed-good : (r : VerificationReport) → passed (chain_good r) ≡ passed r
unfolding passed chain_good
passed-good r = refl

passed-bad : (r : VerificationReport) → passed (chain_bad r) ≡ false
unfolding passed chain_bad
passed-bad r = ground arith

or_true : (a b : Bool) → (a || b) ≡ true → (a ≡ true) ⊎ (b ≡ true)
or_true true b h = inl refl
or_true false b h = inr h

-- What `note_link` returns, by the three cases of its tests.
note_link-cases :
    (prev_hash : Str) (v : Value) (r r' : VerificationReport)
    → note_link prev_hash v r ≡ ok r'
    → (LinkOk prev_hash v × (passed r' ≡ passed r))
      ⊎ ((is_text v prev_hash ≡ false)
          × (str_eq prev_hash [] ≡ false)
          × (is_truthy v ≡ true)
          × (passed r' ≡ false))
unfolding note_link
note_link-cases prev_hash v r r' h = elim (Bool-cases (str_eq prev_hash [] || not (is_truthy v))) [
  | inl missing ↦
      let same : r' ≡ chain_skip r = cc (rw missing at h) in
      inl (
        elim (or_true _ _ missing) [
          | inl a ↦ inl ((str_eq_iff prev_hash []).0 a)
          | inr b ↦ inr (inl (ground arith))
        ],
        ap passed same ∙ passed-skip r,
      )
  | inr present ↦ elim (Bool-cases (is_text v prev_hash)) [
    | inl linked ↦
        let same : r' ≡ chain_good r = cc (rw linked at (rw present at h)) in
        inl (inr (inr (is_text-true v prev_hash linked)), ap passed same ∙ passed-good r)
    | inr broken ↦
        let (u, s, e) = >>=-ok (slice v) (λ _. ok (chain_bad r)) (rw broken at (rw present at h)) in
        let same : r' ≡ chain_bad r = cc e in
        inr (broken, ground arith, ground arith, ap passed same ∙ passed-bad r)
  ]
]

link_to :
    (prev_hash : Str) (v : Value) (r r' : VerificationReport)
    → note_link prev_hash v r ≡ ok r'
    → Passes r'
    → LinkOk prev_hash v × Passes r
link_to prev_hash v r r' h p = elim (note_link-cases prev_hash v r r' h) [
  | inl (l, same) ↦ (l, sym same ∙ p)
  | inr (_, _, _, fails) ↦ cc
]

link_from :
    (prev_hash : Str) (v : Value) (r r' : VerificationReport)
    → note_link prev_hash v r ≡ ok r'
    → LinkOk prev_hash v
    → Passes r
    → Passes r'
link_from prev_hash v r r' h l p = elim (note_link-cases prev_hash v r r' h) [
  | inl (_, same) ↦ same ∙ p
  | inr (other, full, there_is, _) ↦ elim l [
    | inl empty ↦ cc (str_eq_refl prev_hash)
    | inr (inl absent) ↦ cc
    | inr (inr linked) ↦ let e = is_text-str prev_hash in cc (rw linked at other)
  ]
]

links_to :
    (prev_hash : Str) (es : List (ℤ × Envelope)) (r r' : VerificationReport)
    → check_links prev_hash es r ≡ ok r'
    → Passes r'
    → Chained prev_hash es × Passes r
unfolding check_links
links_to prev_hash [] r r' h p = (tt, let same : r ≡ r' = cc in ap passed same ∙ p)
links_to prev_hash ((n, e) ∷ rest) r r' h p =
    let (s, here, more) = >>=-ok (note_link prev_hash (prev_of e) r) _ h in
    let (c, q) = links_to (text_or_empty e.receipt_hash) rest s r' more p in
    let (l, q') = link_to prev_hash (prev_of e) r s here q in ((l, c), q')

links_from :
    (prev_hash : Str) (es : List (ℤ × Envelope)) (r r' : VerificationReport)
    → check_links prev_hash es r ≡ ok r'
    → Chained prev_hash es
    → Passes r
    → Passes r'
unfolding check_links
links_from prev_hash [] r r' h c p = let same : r' ≡ r = cc in ap passed same ∙ p
links_from prev_hash ((n, e) ∷ rest) r r' h c p =
    let (s, here, more) = >>=-ok (note_link prev_hash (prev_of e) r) _ h in
    links_from (text_or_empty e.receipt_hash) rest s r' more c.1
      (link_from prev_hash (prev_of e) r s here c.0 p)

first_passed :
    (b : Bool) (r : VerificationReport)
    → passed (if b then chain_good r else chain_skip r) ≡ passed r
first_passed true r = passed-good r
first_passed false r = passed-skip r

pub sorted_to :
    (es : List (ℤ × Envelope)) (r r' : VerificationReport)
    → check_sorted es r ≡ ok r'
    → Passes r'
    → ChainedSorted es × Passes r
unfolding check_sorted
sorted_to [] r r' h p = (tt, let same : r ≡ r' = cc in ap passed same ∙ p)
sorted_to ((n, e) ∷ rest) r r' h p =
    let (c, q) = links_to (text_or_empty e.receipt_hash) rest _ r' h p in
    (c, sym (first_passed (is_text (prev_of e) genesis_prev_receipt) r) ∙ q)

pub sorted_from :
    (es : List (ℤ × Envelope)) (r r' : VerificationReport)
    → check_sorted es r ≡ ok r'
    → ChainedSorted es
    → Passes r
    → Passes r'
unfolding check_sorted
sorted_from [] r r' h c p = let same : r' ≡ r = cc in ap passed same ∙ p
sorted_from ((n, e) ∷ rest) r r' h c p =
    links_from (text_or_empty e.receipt_hash) rest _ r' h c
      (first_passed (is_text (prev_of e) genesis_prev_receipt) r ∙ p)

link_returns :
    (prev_hash : Str) (v : Value) (r : VerificationReport)
    → LinkOk prev_hash v
    → (r' : VerificationReport) × (note_link prev_hash v r ≡ ok r')
unfolding note_link
link_returns prev_hash v r l = elim (Bool-cases (str_eq prev_hash [] || not (is_truthy v))) [
  | inl missing ↦ (chain_skip r, rw missing)
  | inr present ↦ elim (Bool-cases (is_text v prev_hash)) [
    | inl linked ↦ (chain_good r, rw present (rw linked))
    | inr broken ↦ elim l [
      | inl empty ↦ let e = (str_eq_iff prev_hash []).1 empty in absurd (ground arith)
      | inr (inl absent) ↦ absurd (ground arith)
      | inr (inr same) ↦ cc (is_text-str prev_hash, rw same at broken)
    ]
  ]
]

links_return :
    (prev_hash : Str) (es : List (ℤ × Envelope)) (r : VerificationReport)
    → Chained prev_hash es
    → (r' : VerificationReport) × (check_links prev_hash es r ≡ ok r')
unfolding check_links
links_return prev_hash [] r c = (r, refl)
links_return prev_hash ((n, e) ∷ rest) r c =
    let (s, here) = link_returns prev_hash (prev_of e) r c.0 in
    let (r', more) = links_return (text_or_empty e.receipt_hash) rest s c.1 in (r', rw here more)

pub sorted_returns :
    (es : List (ℤ × Envelope)) (r : VerificationReport)
    → ChainedSorted es
    → (r' : VerificationReport) × (check_sorted es r ≡ ok r')
unfolding check_sorted
sorted_returns [] r c = (r, refl)
sorted_returns ((n, e) ∷ rest) r c = links_return (text_or_empty e.receipt_hash) rest _ c
