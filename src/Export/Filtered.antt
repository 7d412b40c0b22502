-- ===== src/Export/Filtered.antt =====
-- A packet that gateway/api.py exports for one agent against gateway/audit_packet_verifier.py.
use agent_authorization_gate.Base.{
  ℕ, suc, ◌≡◌, ◌≢◌, refl, sym, ap, ◌∙◌, true, false, Bool-cases, inl, inr, Option, none, some, List,
  [], ◌∷◌, ok, Str, Bytes, subst,
}
use agent_authorization_gate.Base.Int.{ℤ, pos}
use agent_authorization_gate.Canonical.{Value}
use agent_authorization_gate.Verify.{Check, Jwk}
use agent_authorization_gate.Receipts.Issue.{done, step, sign_decision-ok}
use agent_authorization_gate.Packet.{
  passed, is_truthy, text_or_empty, RpcAnswer, VerificationReport,
}
use agent_authorization_gate.Export.{
  before_start, select, Query, after_end, other_agent, get_audit_packet, RangedAnchor, packet_of,
}
use agent_authorization_gate.Receipts.{
  Receipt, Request, ReceiptChain, sign_decision, envelope_dict, receipt_hash_of,
}
use agent_authorization_gate.Export.Selected.{
  dropped, stored_with, select-step, chosen, chosen-sorted, next_hash,
}
use agent_authorization_gate.Packet.Chained.{Chained, ChainedSorted}
use agent_authorization_gate.Packet.Links.{prev_of}
use agent_authorization_gate.Export.Contents.{prev_of_envelope, hash_of_envelope}
use agent_authorization_gate.Packet.Verifier.{verify_audit_packet}
use agent_authorization_gate.Packet.Stages.{passes_to}

-- The query for one agent, with no bounds.
abbrev pub for_agent : Str → Query
for_agent a = record { start_seq = none; end_seq = none; agent_id = some a }

str-injective : (s t : Str) → Value.str s ≡ Value.str t → s ≡ t
str-injective s t e = cc

full_truthy : (s : Str) → is_truthy (Value.str s) ≡ false → s ≡ []
unfolding is_truthy
full_truthy [] h = refl
full_truthy (c ∷ s) h = cc

dropped-agent :
    (sha256 : Bytes → Bytes) (sign : Bytes → Str) (a : Str) (n : ℕ) (o : Option Str)
    → dropped sha256 sign (for_agent a) n o ≡ other_agent (some a) o
unfolding before_start after_end
dropped-agent sha256 sign a n o = refl

module _ (sha256 : Bytes → Bytes) (sign : Bytes → Str) (check : Str → Str → Bytes → Check) where
  hash_full :
      (ts : Str) (q : Request) (c c' : ReceiptChain) (r : Receipt)
      → sign_decision sha256 sign ts q c ≡ (ok r, c')
      → r.receipt_hash ≢ []
  hash_full ts q c c' r h e =
      let (b, _, f, _) = sign_decision-ok sha256 sign ts q c c' r h in
      let hash : r.receipt_hash ≡ receipt_hash_of sha256 b =
        ap (λ (y : Receipt). y.receipt_hash) f in
      cc

  -- The selection of the agent's receipts before and behind that of another.
  selected_two :
      (agent : Receipt → Option Str) (a : Str) (c1 c2 c3 c4 : ReceiptChain) (r1 r2 r3 : Receipt)
      (ts1 ts2 ts3 : Str) (q1 q2 q3 : Request)
      → sign_decision sha256 sign ts1 q1 c1 ≡ (ok r1, c2)
      → sign_decision sha256 sign ts2 q2 c2 ≡ (ok r2, c3)
      → sign_decision sha256 sign ts3 q3 c3 ≡ (ok r3, c4)
      → other_agent (some a) (agent r1) ≡ false
      → other_agent (some a) (agent r2) ≡ true
      → other_agent (some a) (agent r3) ≡ false
      → select (for_agent a) (stored_with sha256 sign agent (r1 ∷ r2 ∷ r3 ∷ []))
        ≡ (pos (suc c1.seq), envelope_dict r1) ∷ (pos (suc c3.seq), envelope_dict r3) ∷ []
  unfolding select
  selected_two agent a c1 c2 c3 c4 r1 r2 r3 ts1 ts2 ts3 q1 q2 q3 h1 h2 h3 a1 a2 a3 =
      let kept1 = dropped-agent sha256 sign a (suc c1.seq) (agent r1) ∙ a1 in
      let out = dropped-agent sha256 sign a (suc c2.seq) (agent r2) ∙ a2 in
      let kept3 = dropped-agent sha256 sign a (suc c3.seq) (agent r3) ∙ a3 in
      let third =
        select-step sha256 sign agent (for_agent a) ts3 q3 c3 c4 r3 [] h3 ∙ rw kept3 refl in
      let second =
        select-step sha256 sign agent (for_agent a) ts2 q2 c2 c3 r2 (r3 ∷ []) h2 ∙ rw out third in
      select-step sha256 sign agent (for_agent a) ts1 q1 c1 c2 r1 (r2 ∷ r3 ∷ []) h1
      ∙ rw kept1 (ap (λ l. (pos (suc c1.seq), envelope_dict r1) ∷ l) second)

  -- The link that the verifier then looks for.
  unlinked :
      (c3 c4 : ReceiptChain) (r1 r2 r3 : Receipt) (n : ℤ) (ts3 : Str) (q3 : Request)
      → sign_decision sha256 sign ts3 q3 c3 ≡ (ok r3, c4)
      → c3.prev_receipt_hash ≡ r2.receipt_hash
      → r1.receipt_hash ≢ []
      → r2.receipt_hash ≢ []
      → r1.receipt_hash ≢ r2.receipt_hash
      → ¬ Chained (text_or_empty (envelope_dict r1).receipt_hash) ((n, envelope_dict r3) ∷ [])
  unlinked c3 c4 r1 r2 r3 n ts3 q3 h3 second full1 full2 differ (link, _) =
      let (b, e, f, g) = sign_decision-ok sha256 sign ts3 q3 c3 c4 r3 h3 in
      let prev : prev_of (envelope_dict r3) ≡ Value.str r2.receipt_hash =
        prev_of_envelope r3
        ∙ ap (λ (y : Receipt). Value.str y.prev_receipt) f
        ∙ ap (λ t. Value.str t) second in
      elim link [
        | inl empty ↦ full1 (sym (hash_of_envelope r1) ∙ empty)
        | inr (inl absent) ↦ full2 (full_truthy r2.receipt_hash (ap is_truthy (sym prev) ∙ absent))
        | inr (inr linked) ↦
            differ (
              sym (hash_of_envelope r1) ∙ sym (str-injective r2.receipt_hash _ (sym prev ∙ linked)))
      ]

  -- Take three receipts that were issued one after the other, the first and the third for an agent
  -- and the second for another one, where the first two have different hashes. The packet that is
  -- exported for that agent does not pass the offline verification: the link from the first to the
  -- third is missing, although each receipt is genuine.
  pub filtered_packet_fails :
      (agent : Receipt → Option Str) (a : Str) (c1 c2 c3 c4 : ReceiptChain) (r1 r2 r3 : Receipt)
      (ts1 ts2 ts3 : Str) (q1 q2 q3 : Request) (anchors : List RangedAnchor) (hashes : List Str)
      (keys : List Jwk) (own : Str) (gw_key : Jwk) (rpc : Str → Str → RpcAnswer) (url : Option Str)
      (r : VerificationReport)
      → sign_decision sha256 sign ts1 q1 c1 ≡ (ok r1, c2)
      → sign_decision sha256 sign ts2 q2 c2 ≡ (ok r2, c3)
      → sign_decision sha256 sign ts3 q3 c3 ≡ (ok r3, c4)
      → other_agent (some a) (agent r1) ≡ false
      → other_agent (some a) (agent r2) ≡ true
      → other_agent (some a) (agent r3) ≡ false
      → r1.receipt_hash ≢ r2.receipt_hash
      → verify_audit_packet sha256 check rpc false url (
          packet_of (
            get_audit_packet sha256
              (for_agent a)
              (stored_with sha256 sign agent (r1 ∷ r2 ∷ r3 ∷ []))
              anchors
              hashes
              keys
              own
              gw_key))
        ≡ ok r
      → passed r ≡ false
  unfolding get_audit_packet
  filtered_packet_fails agent a c1 c2 c3 c4 r1 r2 r3 ts1 ts2 ts3 q1 q2 q3 anchors hashes keys own
        gw_key rpc url r h1 h2 h3 a1 a2 a3 differ h =
      elim (Bool-cases (passed r)) [
        | inr fails ↦ fails
        | inl pass ↦
            let (_, (sorted, sorts, links), _, _, _) =
              passes_to sha256 check rpc false url _ r h pass in
            let issued = step ts1 q1 h1 (step ts2 q2 h2 (step ts3 q3 h3 done)) in
            let two =
              selected_two agent a c1 c2 c3 c4 r1 r2 r3 ts1 ts2 ts3 q1 q2 q3 h1 h2 h3 a1 a2 a3 in
            let same : sorted ≡ chosen sha256 sign agent (for_agent a) (r1 ∷ r2 ∷ r3 ∷ []) =
              cc (sorts, chosen-sorted sha256 sign agent (for_agent a) issued) in
            let linked = subst ChainedSorted (same ∙ two) links in
            absurd (
              unlinked c3 c4 r1 r2 r3 (pos (suc c3.seq)) ts3 q3 h3
                (next_hash sha256 sign ts2 q2 c2 c3 r2 h2) (hash_full ts1 q1 c1 c2 r1 h1)
                (hash_full ts2 q2 c2 c3 r2 h2) differ linked)
      ]
