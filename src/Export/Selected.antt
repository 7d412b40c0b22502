-- ===== src/Export/Selected.antt =====
-- The receipts that gateway/api.py selects from a chain that gateway/receipts.py issued.
use agent_authorization_gate.Base.{
  ℕ, suc, ◌<◌, ◌≡◌, refl, sym, ap, ◌∙◌, Bool, true, ◌||◌, Bool-cases, inl, inr, Option, some, List,
  [], ◌∷◌, map, ok, Str, Bytes, All, arith, leb, if◌then◌else◌,
}
use agent_authorization_gate.Base.Int.{
  ℤ, pos, show_nat, int_of_str, int_of_str-show_nat, int_signed,
}
use agent_authorization_gate.Receipts.{
  Receipt, envelope_dict, Request, ReceiptChain, sign_decision, Envelope,
}
use agent_authorization_gate.Export.{
  Query, select, before_start, StoredEnvelope, after_end, other_agent, envelopes,
}
use agent_authorization_gate.Packet.{is_truthy}
use agent_authorization_gate.Canonical.{Value}
use agent_authorization_gate.Packet.Links.{seq_of, sort_by_seq, place, le_int}
use agent_authorization_gate.Receipts.Issue.{sign_decision-ok, signed, Issued, step, done}
use agent_authorization_gate.Verify.Accepted.{get_seq, to_int-show_nat}

-- A text that reads as a number is not empty.
is_truthy-number : (s : Str) (n : ℤ) → int_of_str s ≡ some n → is_truthy (Value.str s) ≡ true
unfolding is_truthy int_of_str int_signed
is_truthy-number [] n h = cc
is_truthy-number (c ∷ s) n h = refl

module _ (sha256 : Bytes → Bytes) (sign : Bytes → Str) where
  -- The number of an issued receipt.
  seq_of-signed :
      (ts : Str) (q : Request) (c : ReceiptChain) (b : Bytes)
      → seq_of (envelope_dict (signed sha256 sign ts q c b)) ≡ ok (pos (suc c.seq))
  unfolding seq_of envelope_dict
  seq_of-signed ts q c b =
      let number = show_nat (suc c.seq) in
      rw (get_seq (signed sha256 sign ts q c b), seq_of)
        (rw (is_truthy-number number _ (int_of_str-show_nat (suc c.seq)))
          (to_int-show_nat (suc c.seq)))

  -- A stored chain of issued receipts, with any agents beside them.
  abbrev pub stored_with : (Receipt → Option Str) → List Receipt → List StoredEnvelope
  stored_with agent rs = map (λ r. record { envelope = envelope_dict r; agent_id = agent r }) rs

  -- Whether the receipt of a number passes the filters.
  abbrev pub dropped : Query → ℕ → Option Str → Bool
  dropped q n agent =
      before_start q.start_seq (pos n)
      || after_end q.end_seq (pos n)
      || other_agent q.agent_id agent

  -- One step of the selection on an issued chain.
  pub select-step :
      (agent : Receipt → Option Str) (query : Query) (ts : Str) (q : Request) (c c' : ReceiptChain)
      (r : Receipt) (rs : List Receipt)
      → sign_decision sha256 sign ts q c ≡ (ok r, c')
      → select query (stored_with agent (r ∷ rs)) ≡ (
          if dropped query (suc c.seq) (agent r)
          then select query (stored_with agent rs)
          else (pos (suc c.seq), envelope_dict r) ∷ select query (stored_with agent rs))
  unfolding select
  select-step agent query ts q c c' r rs h =
      let (b, e, f, g) = sign_decision-ok sha256 sign ts q c c' r h in
      let number : seq_of (envelope_dict r) ≡ ok (pos (suc c.seq)) =
        rw f (seq_of-signed ts q c b) in
      rw (number, select) refl

  pub next_number :
      (ts : Str) (q : Request) (c c' : ReceiptChain) (r : Receipt)
      → sign_decision sha256 sign ts q c ≡ (ok r, c')
      → c'.seq ≡ suc c.seq
  next_number ts q c c' r h =
      let (b, e, f, g) = sign_decision-ok sha256 sign ts q c c' r h in
      ap (λ (x : ReceiptChain). x.seq) g

  pub next_hash :
      (ts : Str) (q : Request) (c c' : ReceiptChain) (r : Receipt)
      → sign_decision sha256 sign ts q c ≡ (ok r, c')
      → c'.prev_receipt_hash ≡ r.receipt_hash
  next_hash ts q c c' r h =
      let (b, e, f, g) = sign_decision-ok sha256 sign ts q c c' r h in
      ap (λ (x : ReceiptChain). x.prev_receipt_hash) g
      ∙ sym (ap (λ (x : Receipt). x.receipt_hash) f)

  -- The receipts selected from a chain have numbers above its own.
  abbrev pub Above : ℕ → List (ℤ × Envelope) → Type 0
  Above m es = All (λ p. (k : ℕ) × (p.0 ≡ pos k) × (m < k)) es

  Above-weaken : (m : ℕ) (es : List (ℤ × Envelope)) → Above (suc m) es → Above m es
  Above-weaken m [] h = tt
  Above-weaken m (p ∷ es) ((k, e, lt), rest) = ((k, e, omega arith), Above-weaken m es rest)

  place-first :
      (n : ℕ) (e : Envelope) (es : List (ℤ × Envelope))
      → Above n es
      → place (pos n) e es ≡ (pos n, e) ∷ es
  unfolding place le_int
  place-first n e [] h = refl
  place-first n e ((m, f) ∷ es) ((k, same, lt), rest) =
      let le : leb n k ≡ true = ground arith in rw same (rw le refl)

module _ (sha256 : Bytes → Bytes) (sign : Bytes → Str) (agent : Receipt → Option Str)
    (query : Query) where
  abbrev pub chosen : List Receipt → List (ℤ × Envelope)
  chosen rs = select query (stored_with sha256 sign agent rs)

  pub chosen-Above :
      {c d : ReceiptChain} {rs : List Receipt}
      → Issued sha256 sign c rs d
      → Above sha256 sign c.seq (chosen rs)
  unfolding select
  chosen-Above done = tt
  chosen-Above (step {c} {c'} {d} {r} {rs} ts q h i) =
      let rest = chosen-Above i in
      let next = next_number sha256 sign ts q c c' r h in
      let above = Above-weaken sha256 sign c.seq (chosen rs) (rw next at rest) in
      rw (select-step sha256 sign agent query ts q c c' r rs h)
        (elim (Bool-cases (dropped sha256 sign query (suc c.seq) (agent r))) [
          | inl out ↦ rw out above
          | inr kept ↦ rw kept ((suc c.seq, refl, omega arith), above)
        ])

  -- They are in the order of their numbers already.
  pub chosen-sorted :
      {c d : ReceiptChain} {rs : List Receipt}
      → Issued sha256 sign c rs d
      → sort_by_seq (envelopes (chosen rs)) ≡ ok (chosen rs)
  unfolding select sort_by_seq
  chosen-sorted done = refl
  chosen-sorted (step {c} {c'} {d} {r} {rs} ts q h i) =
      let next = next_number sha256 sign ts q c c' r h in
      let above = chosen-Above i in
      let (b, e, f, g) = sign_decision-ok sha256 sign ts q c c' r h in
      let number : seq_of (envelope_dict r) ≡ ok (pos (suc c.seq)) =
        rw f (seq_of-signed sha256 sign ts q c b) in
      rw (select-step sha256 sign agent query ts q c c' r rs h)
        (elim (Bool-cases (dropped sha256 sign query (suc c.seq) (agent r))) [
          | inl out ↦ rw out (chosen-sorted i)
          | inr kept ↦ rw kept (
              rw (number, sort_by_seq)
                (rw (chosen-sorted i) (
                  ap ok (
                    place-first sha256 sign (suc c.seq) (envelope_dict r) (chosen rs)
                      (rw next at above)))))
        ])
