-- ===== src/Verify/Issued.antt =====
-- gateway/verify.py on the chains that gateway/receipts.py issues.
use agent_authorization_gate.Base.{
  suc, ◌≡◌, refl, sym, ap, ◌∙◌, List, [], ◌∷◌, ◌++◌, map, append-nil, ok, err, Str, Bytes, arith,
  subst, ◌==◌, true, false, ==_iff,
}
use agent_authorization_gate.Base.Dict.{Dict}
use agent_authorization_gate.Canonical.{CanonicalError}
use agent_authorization_gate.Receipts.{
  Receipt, ReceiptChain, Request, Envelope, envelope_dict, sign_decision, new_chain,
  genesis_prev_receipt,
}
use agent_authorization_gate.Receipts.Issue.{
  Issued, done, step, next_seq, sign_decision-ok, sign_decision-err, Issued-receipts, Issued-kid,
}
use agent_authorization_gate.Verify.{Jwk, pass, fail, inconclusive, sequence_gap, Check}
use agent_authorization_gate.Verify.Chain.{resolve, verify_links, verify_chain, verdicts}
use agent_authorization_gate.Verify.Accepted.{Signs, signer, link_issued}

map-append :
    (f : Receipt → Envelope) (xs ys : List Receipt) → map f (xs ++ ys) ≡ map f xs ++ map f ys
map-append f [] ys = refl
map-append f (x ∷ xs) ys = ap (λ l. f x ∷ l) (map-append f xs ys)

module _ (sha256 : Bytes → Bytes) (sign : Bytes → Str) (check : Str → Str → Bytes → Check) (x : Str)
    (signs : Signs sign check x) (keys : Dict Jwk) (fallback : Jwk) where
  -- The loop passes over issued receipts and goes on from the chain that they left.
  links-Issued :
      {c d : ReceiptChain} {rs : List Receipt} (es : List Envelope)
      → resolve keys fallback c.kid ≡ signer c.kid x
      → Issued sha256 sign c rs d
      → verify_links sha256 check keys fallback
          (suc c.seq)
          c.prev_receipt_hash
          (map envelope_dict rs ++ es)
        ≡ verify_links sha256 check keys fallback (suc d.seq) d.prev_receipt_hash es
  links-Issued es k done = refl
  links-Issued {c} {d} es k (step {c'} {r} {rs} ts q h i) =
      let (b, e, f, g) = sign_decision-ok sha256 sign ts q c c' r h in
      let seq : c'.seq ≡ suc c.seq = ap (λ (a : ReceiptChain). a.seq) g in
      let kid : c'.kid ≡ c.kid = ap (λ (a : ReceiptChain). a.kid) g in
      let here =
        link_issued sha256 sign check x signs keys fallback (suc c.seq) ts q c c' r
          (map envelope_dict rs ++ es) k h in
      let rest = links-Issued es (rw kid k) i in
      let same : (suc c.seq == suc c.seq) ≡ true = (==_iff (suc c.seq) (suc c.seq)).1 refl in
      rw same at here ∙ rw seq at rest

  chain_is_links :
      (rs : List Receipt) (r : Receipt)
      → verify_chain sha256 check keys fallback (map envelope_dict (rs ++ r ∷ []))
        ≡ verify_links sha256 check keys fallback 1 genesis_prev_receipt
            (map envelope_dict rs ++ envelope_dict r ∷ [])
  unfolding verify_chain
  chain_is_links [] r = refl
  chain_is_links (s ∷ rs) r =
      ap (λ l. verify_links sha256 check keys fallback 1 genesis_prev_receipt (envelope_dict s ∷ l))
        (map-append envelope_dict rs (r ∷ []))

  -- A chain of receipts that `sign_decision` issued from a new chain, with no call that raised in
  -- between, passes `verify_chain` under the gateway's key.
  pub Issued-verifies :
      (tenant kid : Str) (r : Receipt) (rs : List Receipt) (c : ReceiptChain)
      → resolve keys fallback kid ≡ signer kid x
      → Issued sha256 sign (new_chain tenant kid) (r ∷ rs) c
      → verify_chain sha256 check keys fallback (map envelope_dict c.receipts)
        ≡ verdicts pass pass []
  unfolding verify_chain verify_links
  Issued-verifies tenant kid r rs c k i = rw (Issued-receipts sha256 sign i) (
      subst
        (λ l.
          verify_links sha256 check keys fallback 1 genesis_prev_receipt l ≡ verdicts pass pass [])
        (append-nil (map envelope_dict (r ∷ rs))) (links-Issued [] k i))

  -- After issued receipts, a call of `sign_decision` that raises and one that returns, the chain
  -- fails `verify_chain` with SEQUENCE_GAP.
  pub failed_call_breaks_chain :
      (tenant kid : Str) (rs : List Receipt) (c c' d : ReceiptChain) (r : Receipt) (ts ts' : Str)
      (q q' : Request) (e : CanonicalError)
      → resolve keys fallback kid ≡ signer kid x
      → Issued sha256 sign (new_chain tenant kid) rs c
      → sign_decision sha256 sign ts q c ≡ (err e, c')
      → sign_decision sha256 sign ts' q' c' ≡ (ok r, d)
      → verify_chain sha256 check keys fallback (map envelope_dict d.receipts)
        ≡ verdicts inconclusive fail (sequence_gap ∷ [])
  failed_call_breaks_chain tenant kid rs c c' d r ts ts' q q' e k i h h' =
      let (b, f, g, p) = sign_decision-ok sha256 sign ts' q' c' d r h' in
      let raised = sign_decision-err sha256 sign ts q c c' e h in
      let next : sign_decision sha256 sign ts' q' (next_seq c) ≡ (ok r, d) =
        subst (λ a. sign_decision sha256 sign ts' q' a ≡ (ok r, d)) raised h' in
      let receipts : d.receipts ≡ rs ++ r ∷ [] =
        ap (λ (a : ReceiptChain). a.receipts) p
        ∙ ap (λ (a : ReceiptChain). a.receipts ++ r ∷ []) raised
        ∙ ap (λ l. l ++ r ∷ []) (Issued-receipts sha256 sign i) in
      let own_key = rw (sym (Issued-kid sha256 sign i)) at k in
      let gap =
        link_issued sha256 sign check x signs keys fallback (suc c.seq) ts' q' (next_seq c) d r []
          own_key next in
      let apart : (suc (suc c.seq) == suc c.seq) ≡ false = ground arith in
      rw receipts (chain_is_links rs r ∙ links-Issued (envelope_dict r ∷ []) k i ∙ rw apart at gap)
