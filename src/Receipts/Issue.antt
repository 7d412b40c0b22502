-- ===== src/Receipts/Issue.antt =====
-- Runs of `sign_decision` of gateway/receipts.py: what they leave in the chain.
use agent_authorization_gate.Base.{
  suc, ◌≡◌, refl, sym, ap, ◌∙◌, List, [], ◌∷◌, ◌++◌, append-nil, append_assoc, Result, ok, err, Str,
  Bytes,
}
use agent_authorization_gate.Canonical.{Value, CanonicalError, canonicalize}
use agent_authorization_gate.Receipts.{
  Receipt, ReceiptChain, Request, body_dict, unsigned, receipt_hash_of, sign_body, sign_decision,
}

-- The chain in which `sign_decision` builds the body.
abbrev pub next_seq : ReceiptChain → ReceiptChain
next_seq c = record c { seq = suc c.seq }

module _ (sha256 : Bytes → Bytes) (sign : Bytes → Str) where
  -- The receipts that calls of `sign_decision` returned one after the other, none of which raised.
  pub data Issued : ReceiptChain → List Receipt → ReceiptChain → Type 0 where
    done : {c : ReceiptChain} → Issued c [] c
    step :
        {c c' d : ReceiptChain} {r : Receipt} {rs : List Receipt} (ts : Str) (q : Request)
        → sign_decision sha256 sign ts q c ≡ (ok r, c')
        → Issued c' rs d
        → Issued c (r ∷ rs) d

  abbrev pub signed : Str → Request → ReceiptChain → Bytes → Receipt
  signed ts q c b = record (unsigned ts q (next_seq c)) {
    receipt_hash = receipt_hash_of sha256 b;
    signature = sign b;
    kid = c.kid;
  }

  sign_body-ok :
      (r c : Receipt) (d d' : ReceiptChain) (m : Result CanonicalError Bytes)
      → sign_body sha256 sign r d m ≡ (ok c, d')
      → (b : Bytes) × (m ≡ ok b)
        × (c
            ≡ record r { receipt_hash = receipt_hash_of sha256 b; signature = sign b; kid = d.kid })
        × (d' ≡ record d {
          prev_receipt_hash = receipt_hash_of sha256 b;
          receipts = d.receipts ++ c ∷ [];
        })
  unfolding sign_body
  sign_body-ok r c d d' (ok b) h = (b, refl, cc, cc)
  sign_body-ok r c d d' (err e) h = cc

  sign_body-err :
      (r : Receipt) (d d' : ReceiptChain) (m : Result CanonicalError Bytes) (x : CanonicalError)
      → sign_body sha256 sign r d m ≡ (err x, d')
      → d' ≡ d
  unfolding sign_body
  sign_body-err r d d' (ok b) x h = cc
  sign_body-err r d d' (err e) x h = cc

  -- A call that returned signed the canonical bytes of its body.
  pub sign_decision-ok :
      (ts : Str) (q : Request) (c c' : ReceiptChain) (r : Receipt)
      → sign_decision sha256 sign ts q c ≡ (ok r, c')
      → (b : Bytes) × (canonicalize (Value.dict (body_dict (unsigned ts q (next_seq c)))) ≡ ok b)
        × (r ≡ signed ts q c b)
        × (c' ≡ record (next_seq c) {
          prev_receipt_hash = receipt_hash_of sha256 b;
          receipts = c.receipts ++ r ∷ [];
        })
  unfolding sign_decision
  sign_decision-ok ts q c c' r h =
      sign_body-ok (unsigned ts q (next_seq c)) r (next_seq c) c'
        (canonicalize (Value.dict (body_dict (unsigned ts q (next_seq c))))) h

  -- A call that raised leaves the chain with its next number.
  pub sign_decision-err :
      (ts : Str) (q : Request) (c c' : ReceiptChain) (x : CanonicalError)
      → sign_decision sha256 sign ts q c ≡ (err x, c')
      → c' ≡ next_seq c
  unfolding sign_decision
  sign_decision-err ts q c c' x h =
      sign_body-err (unsigned ts q (next_seq c)) (next_seq c) c'
        (canonicalize (Value.dict (body_dict (unsigned ts q (next_seq c))))) x h

  -- The chain holds what it held and the receipts that were issued.
  pub Issued-receipts :
      {c d : ReceiptChain} {rs : List Receipt} → Issued c rs d → d.receipts ≡ c.receipts ++ rs
  Issued-receipts (done {c}) = sym (append-nil c.receipts)
  Issued-receipts (step {c} {c'} {d} {r} {rs} ts q h i) =
      let (b, e, f, g) = sign_decision-ok ts q c c' r h in
      let here : c'.receipts ≡ c.receipts ++ r ∷ [] = ap (λ (x : ReceiptChain). x.receipts) g in
      Issued-receipts i ∙ ap (λ l. l ++ rs) here ∙ append_assoc c.receipts (r ∷ []) rs

  pub Issued-kid : {c d : ReceiptChain} {rs : List Receipt} → Issued c rs d → d.kid ≡ c.kid
  Issued-kid done = refl
  Issued-kid (step {c} {c'} {d} {r} {rs} ts q h i) =
      let (b, e, f, g) = sign_decision-ok ts q c c' r h in
      Issued-kid i ∙ ap (λ (x : ReceiptChain). x.kid) g
