-- ===== src/Export/Contents.antt =====
-- The links, the signatures and the proofs in a packet that gateway/api.py exports from a chain that
-- gateway/receipts.py issued.
use agent_authorization_gate.Base.{
  ℕ, suc, ◌≡◌, refl, ap, ◌∙◌, true, false, Bool-cases, inl, inr, Option, none, some, List, [], Str,
  Bytes, arith,
}
use agent_authorization_gate.Base.Int.{pos}
use agent_authorization_gate.Canonical.{Value}
use agent_authorization_gate.Verify.Accepted.{get_prev}
use agent_authorization_gate.Receipts.Issue.{Issued, done, step, sign_decision-ok}
use agent_authorization_gate.Packet.{text_or_empty}
use agent_authorization_gate.Export.{before_start, other_agent, after_end, Query, select}
use agent_authorization_gate.Receipts.{envelope_dict, Receipt, ReceiptChain}
use agent_authorization_gate.Packet.Links.{prev_of, le_int}
use agent_authorization_gate.Packet.Chained.{Chained, ChainedSorted}
use agent_authorization_gate.Export.Selected.{chosen, next_number, dropped, select-step, next_hash}

not_before-suc :
    (start : Option ℕ) (n : ℕ)
    → before_start start (pos n) ≡ false
    → before_start start (pos (suc n)) ≡ false
unfolding before_start le_int
not_before-suc none n h = refl
not_before-suc (some s) n h = ground arith

after-suc :
    (last : Option ℕ) (n : ℕ) → after_end last (pos n) ≡ true → after_end last (pos (suc n)) ≡ true
unfolding after_end le_int
after-suc none n h = cc
after-suc (some s) n h = ground arith

pub prev_of_envelope : (r : Receipt) → prev_of (envelope_dict r) ≡ Value.str r.prev_receipt
unfolding envelope_dict
prev_of_envelope r = rw (get_prev r, prev_of) refl

pub hash_of_envelope : (r : Receipt) → text_or_empty (envelope_dict r).receipt_hash ≡ r.receipt_hash
unfolding envelope_dict
hash_of_envelope r = refl

anyone : (a : Option Str) → other_agent none a ≡ false
unfolding other_agent
anyone a = refl

module _ (sha256 : Bytes → Bytes) (sign : Bytes → Str) (agent : Receipt → Option Str)
    (query : Query) where
  -- Once a number is past the end, so are all that follow.
  past_end :
      {c d : ReceiptChain} {rs : List Receipt}
      → Issued sha256 sign c rs d
      → after_end query.end_seq (pos (suc c.seq)) ≡ true
      → chosen sha256 sign agent query rs ≡ []
  unfolding select
  past_end done past = refl
  past_end (step {c} {c'} {d} {r} {rs} ts q h i) past =
      let next = next_number sha256 sign ts q c c' r h in
      let more : after_end query.end_seq (pos (suc c'.seq)) ≡ true =
        rw next (after-suc query.end_seq (suc c.seq) past) in
      let out : dropped sha256 sign query (suc c.seq) (agent r) ≡ true = ground arith in
      select-step sha256 sign agent query ts q c c' r rs h ∙ rw out (past_end i more)

  module _ (no_agent : query.agent_id ≡ none) where
    -- Past the start, each receipt links to the chain before it.
    links_after :
        {c d : ReceiptChain} {rs : List Receipt}
        → Issued sha256 sign c rs d
        → before_start query.start_seq (pos (suc c.seq)) ≡ false
        → Chained c.prev_receipt_hash (chosen sha256 sign agent query rs)
    unfolding select
    links_after done past = tt
    links_after (step {c} {c'} {d} {r} {rs} ts q h i) past =
        let (b, e, f, g) = sign_decision-ok sha256 sign ts q c c' r h in
        let next = next_number sha256 sign ts q c c' r h in
        let more : before_start query.start_seq (pos (suc c'.seq)) ≡ false =
          rw next (not_before-suc query.start_seq (suc c.seq) past) in
        let rest = links_after i more in
        let hash = next_hash sha256 sign ts q c c' r h in
        let prev : prev_of (envelope_dict r) ≡ Value.str c.prev_receipt_hash =
          rw (prev_of_envelope r) (ap (λ (x : Receipt). Value.str x.prev_receipt) f) in
        rw (select-step sha256 sign agent query ts q c c' r rs h)
          (elim (Bool-cases (after_end query.end_seq (pos (suc c.seq)))) [
            | inl past_last ↦
                let out : dropped sha256 sign query (suc c.seq) (agent r) ≡ true = ground arith in
                let later : after_end query.end_seq (pos (suc c'.seq)) ≡ true =
                  rw next (after-suc query.end_seq (suc c.seq) past_last) in
                rw out (rw (past_end i later) tt)
            | inr within ↦
                let kept : dropped sha256 sign query (suc c.seq) (agent r) ≡ false =
                  rw past (rw within (rw no_agent (anyone (agent r)))) in
                rw kept (inr (inr prev), rw (hash_of_envelope r) (rw hash at rest))
          ])

    -- The selected receipts are linked.
    pub chosen-Chained :
        {c d : ReceiptChain} {rs : List Receipt}
        → Issued sha256 sign c rs d
        → ChainedSorted (chosen sha256 sign agent query rs)
    unfolding select
    chosen-Chained done = tt
    chosen-Chained (step {c} {c'} {d} {r} {rs} ts q h i) =
        let next = next_number sha256 sign ts q c c' r h in
        let hash = next_hash sha256 sign ts q c c' r h in
        rw (select-step sha256 sign agent query ts q c c' r rs h)
          (elim (Bool-cases (dropped sha256 sign query (suc c.seq) (agent r))) [
            | inl out ↦ rw out (chosen-Chained i)
            | inr kept ↦
                let started : before_start query.start_seq (pos (suc c.seq)) ≡ false =
                  ground arith in
                let more : before_start query.start_seq (pos (suc c'.seq)) ≡ false =
                  rw next (not_before-suc query.start_seq (suc c.seq) started) in
                let rest = links_after i more in rw kept (rw (hash_of_envelope r) (rw hash at rest))
          ])
