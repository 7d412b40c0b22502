-- ===== src/Verify/Linked.antt =====
-- What a passing verdict of gateway/verify.py proves of a chain of envelopes.
use agent_authorization_gate.Base.{
  ℕ, suc, ◌≡◌, ◌≢◌, refl, ap, ◌∙◌, true, Bool-cases, Option, none, some, List, [], ◌∷◌, Result, ok,
  ◌>>=◌, >>=-ok, ◌⊎◌, inl, inr, Str, Bytes, codes, str_eq_iff, ==_iff,
}
use agent_authorization_gate.Base.Dict.{Dict}
use agent_authorization_gate.Base.Int.{pos, ℤ, negsuc}
use agent_authorization_gate.Canonical.{Value, Fields}
use agent_authorization_gate.Receipts.{Envelope, genesis_prev_receipt, receipt_hash_of}
use agent_authorization_gate.Verify.{
  Jwk, Verdict, pass, fail, inconclusive, ErrorCode, Check, VerificationResult, Raised,
  verify_receipt, get, to_int, is_text, int_eq, sequence_gap, slice, chain_break,
}
use agent_authorization_gate.Verify.Chain.{
  key_for, need, verdicts, link_body, link_step, verify_links, verify_chain,
}
use agent_authorization_gate.Verify.Authentic.{verify_receipt_sound, Authentic, hash_ok-some}

-- `actual_seq` and `actual_prev` of a body are those expected.
abbrev Placed : ℕ → Str → Fields → Type 0
Placed seq prev body =
    ((v : Value) × (get (codes "seq") body ≡ some v) × (to_int v ≡ ok (pos seq)))
    × (get (codes "prev_receipt") body ≡ some (Value.str prev))

int_eq-pos : (m : ℤ) (n : ℕ) → int_eq m (pos n) ≡ true → m ≡ pos n
unfolding int_eq
int_eq-pos (pos m) n h = ap pos ((==_iff m n).0 h)
int_eq-pos (negsuc m) n h = cc

pub is_text-true : (v : Value) (s : Str) → is_text v s ≡ true → v ≡ Value.str s
unfolding is_text
is_text-true (Value.str t) s h = ap (λ u. Value.str u) ((str_eq_iff t s).0 h)
is_text-true Value.null s h = cc
is_text-true (Value.bool _) s h = cc
is_text-true (Value.int _) s h = cc
is_text-true (Value.float _) s h = cc
is_text-true (Value.list _) s h = cc
is_text-true (Value.dict _) s h = cc
is_text-true Value.other s h = cc

need-ok {ℓ} : {A : Type ℓ} (o : Option A) (a : A) → need o ≡ ok a → o ≡ some a
unfolding need
need-ok none a h = cc
need-ok (some x) a h = cc

-- A verdict that the chain failed is none that it passed.
no_pass :
    (c : ErrorCode) (res : VerificationResult)
    → verdicts inconclusive fail (c ∷ []) ≡ ok res
    → res.chain_validity ≢ pass
no_pass c res h p = cc

-- A link that ends in a passing chain goes on from the envelope's hash.
link_body-pass :
    (seq : ℕ) (prev : Str) (body : Fields) (claimed : Option Str)
    (next : Str → Result Raised VerificationResult) (res : VerificationResult)
    → link_body seq prev body claimed next ≡ ok res
    → res.chain_validity ≡ pass
    → Placed seq prev body × ((hash : Str) × (claimed ≡ some hash) × (next hash ≡ ok res))
unfolding link_body
link_body-pass seq prev body claimed next res h p =
    let (v, e, h1) = >>=-ok (need (get (codes "seq") body)) _ h in
    let (m, f, h2) = >>=-ok (to_int v) _ h1 in
    elim (Bool-cases (int_eq m (pos seq))) [
      | inr apart ↦ absurd (no_pass sequence_gap res (rw apart at h2) p)
      | inl same ↦
          let (w, g, h3) = >>=-ok (need (get (codes "prev_receipt") body)) _ (rw same at h2) in
          elim (Bool-cases (is_text w prev)) [
            | inr broken ↦
                let (u, _, h4) = >>=-ok (slice w) _ (rw broken at h3) in
                absurd (no_pass chain_break res h4 p)
            | inl linked ↦
                let (hash, c, h4) = >>=-ok (need claimed) _ (rw linked at h3) in
                (
                  (
                    (v, need-ok _ v e, f ∙ ap ok (int_eq-pos m seq same)),
                    need-ok _ w g ∙ ap some (is_text-true w prev linked),
                  ),
                  (hash, need-ok claimed hash c, h4),
                )
          ]
    ]

Verdict-cases : (v : Verdict) → (v ≡ fail) ⊎ ((v ≡ pass) ⊎ (v ≡ inconclusive))
Verdict-cases pass = inr (inl refl)
Verdict-cases fail = inl refl
Verdict-cases inconclusive = inr (inr refl)

no_valid :
    (cs : List ErrorCode) (res : VerificationResult)
    → verdicts fail inconclusive cs ≡ ok res
    → res.chain_validity ≢ pass
no_valid cs res h p = cc

needed_body :
    (e : Envelope) (seq : ℕ) (prev : Str) (next : Str → Result Raised VerificationResult)
    (res : VerificationResult)
    → (do body ← need e.body; link_body seq prev body e.receipt_hash next) ≡ ok res
    → (body : Fields) × (e.body ≡ some body)
      × (link_body seq prev body e.receipt_hash next ≡ ok res)
needed_body e seq prev next res h =
    let (body, b, h1) = >>=-ok (need e.body) _ h in (body, need-ok e.body body b, h1)

-- A step that ends in a passing chain had no failure of integrity.
link_step-pass :
    (seq : ℕ) (prev : Str) (e : Envelope) (single : VerificationResult)
    (next : Str → Result Raised VerificationResult) (res : VerificationResult)
    → link_step seq prev e single next ≡ ok res
    → res.chain_validity ≡ pass
    → (single.receipt_integrity ≢ fail)
      × ((body : Fields) × (e.body ≡ some body)
          × (link_body seq prev body e.receipt_hash next ≡ ok res))
unfolding link_step
link_step-pass seq prev e single next res h p = elim (Verdict-cases single.receipt_integrity) [
  | inl failed ↦ absurd (no_valid single.errors res (rw failed at h) p)
  | inr (inl passed) ↦ (λ f. cc (passed, f), needed_body e seq prev next res (rw passed at h))
  | inr (inr unknown) ↦ (λ f. cc (unknown, f), needed_body e seq prev next res (rw unknown at h))
]

module _ (sha256 : Bytes → Bytes) (check : Str → Str → Bytes → Check) (keys : Dict Jwk)
    (fallback : Jwk) where
  -- From the place `seq` and the hash `prev` on, each envelope is signed, stands in its place, links
  -- to the one before it and states its own hash, or the empty text.
  pub data Linked : ℕ → Str → List Envelope → Type 0 where
    last : {seq : ℕ} {prev : Str} → Linked seq prev []
    link :
        {seq : ℕ} {prev hash : Str} {e : Envelope} {es : List Envelope}
        (a : Authentic check (key_for keys fallback e) e)
        → Placed seq prev a.body
        → e.receipt_hash ≡ some hash
        → (hash ≡ []) ⊎ (hash ≡ receipt_hash_of sha256 a.bytes)
        → Linked (suc seq) hash es
        → Linked seq prev (e ∷ es)

  links_sound :
      (seq : ℕ) (prev : Str) (es : List Envelope) (res : VerificationResult)
      → verify_links sha256 check keys fallback seq prev es ≡ ok res
      → res.chain_validity ≡ pass
      → Linked seq prev es
  unfolding verify_links
  links_sound seq prev [] res h p = last
  links_sound seq prev (e ∷ es) res h p =
      let (single, v, h1) =
        >>=-ok (verify_receipt sha256 check e (key_for keys fallback e) none) _ h in
      let (sound, (body, b, h2)) = link_step-pass seq prev e single _ res h1 p in
      let (a, hash) =
        verify_receipt_sound sha256 check e (key_for keys fallback e) single v sound in
      let same : body ≡ a.body = cc (b, a.body_stands) in
      let (placed, (claimed, c, rest)) = link_body-pass seq prev body e.receipt_hash _ res h2 p in
      link a (rw same at placed) c
        (hash_ok-some claimed (receipt_hash_of sha256 a.bytes) (rw c at hash))
        (links_sound (suc seq) claimed es res rest p)

  -- A chain that `verify_chain` calls valid has at least one envelope, and its envelopes are numbered
  -- from 1 on without a gap; each is signed by the key that its `kid` selects, states as `prev_receipt`
  -- the hash that the envelope before it states, the first one the genesis hash, and states as its own
  -- hash that of its canonical body, or the empty text.
  pub valid_chain-Linked :
      (es : List Envelope) (res : VerificationResult)
      → verify_chain sha256 check keys fallback es ≡ ok res
      → res.chain_validity ≡ pass
      → (es ≢ []) × Linked 1 genesis_prev_receipt es
  unfolding verify_chain
  valid_chain-Linked [] res h p = cc
  valid_chain-Linked (e ∷ es) res h p =
      ((λ x. cc), links_sound 1 genesis_prev_receipt (e ∷ es) res h p)
