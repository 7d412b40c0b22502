-- ===== src/Packet/Links.antt =====
-- Step 2 of gateway/audit_packet_verifier.py: the continuity of the hash chain.
use agent_authorization_gate.Base.{
  ◌+◌, Bool, true, false, not, ◌||◌, none, some, List, [], ◌∷◌, ◌++◌, Result, ok, ◌>>=◌, Str, codes,
  str_eq, if◌then◌else◌, leb,
}
use agent_authorization_gate.Base.Int.{ℤ, pos, negsuc}
use agent_authorization_gate.Canonical.{Value}
use agent_authorization_gate.Receipts.{Envelope, genesis_prev_receipt}
use agent_authorization_gate.Verify.{Raised, get, is_text, to_int, slice}
use agent_authorization_gate.Packet.{
  chain_break, VerificationReport, AuditPacket, text_or_empty, body_or_empty, is_truthy,
}

-- `int(body.get("seq", "0") or "0")`
unfoldable pub seq_of : Envelope → Result Raised ℤ
seq_of e = elim (get (codes "seq") (body_or_empty e.body)) [
  | none ↦ ok (pos 0)
  | some v ↦ if is_truthy v then to_int v else ok (pos 0)
]

-- `a <= b`
unfoldable pub le_int : ℤ → ℤ → Bool
le_int (pos m) (pos n) = leb m n
le_int (negsuc m) (pos n) = true
le_int (pos m) (negsuc n) = false
le_int (negsuc m) (negsuc n) = leb n m

-- The stable sort by the key, and the keys, any of which may raise.
unfoldable pub place : ℤ → Envelope → List (ℤ × Envelope) → List (ℤ × Envelope)
place n e [] = (n, e) ∷ []
place n e ((m, f) ∷ rest) = if le_int n m then (n, e) ∷ (m, f) ∷ rest else (m, f) ∷ place n e rest

unfoldable pub sort_by_seq : List Envelope → Result Raised (List (ℤ × Envelope))
sort_by_seq [] = ok []
sort_by_seq (e ∷ es) = do n ← seq_of e; rest ← sort_by_seq es; ok (place n e rest)

abbrev pub prev_of : Envelope → Value
prev_of e = elim (get (codes "prev_receipt") (body_or_empty e.body)) [
  | none ↦ Value.str []
  | some v ↦ v
]

unfoldable pub chain_skip : VerificationReport → VerificationReport
chain_skip r = record r { chain_links_skip = r.chain_links_skip + 1 }

unfoldable pub chain_good : VerificationReport → VerificationReport
chain_good r = record r { chain_links_ok = r.chain_links_ok + 1 }

unfoldable pub chain_bad : VerificationReport → VerificationReport
chain_bad r = record r {
  chain_links_fail = r.chain_links_fail + 1;
  errors = r.errors ++ (chain_break ∷ []);
}

-- The check of the link between two receipts that follow one another. The message slices `curr_prev`.
unfoldable pub note_link : Str → Value → VerificationReport → Result Raised VerificationReport
note_link prev_hash curr_prev r =
    if str_eq prev_hash [] || not (is_truthy curr_prev)
    then ok (chain_skip r)
    else if is_text curr_prev prev_hash
    then ok (chain_good r)
    else (do _ ← slice curr_prev; ok (chain_bad r))

unfoldable pub check_links :
    Str → List (ℤ × Envelope) → VerificationReport → Result Raised VerificationReport
check_links prev_hash [] r = ok r
check_links prev_hash ((_, e) ∷ rest) r = do
  r' ← note_link prev_hash (prev_of e) r
  check_links (text_or_empty e.receipt_hash) rest r'

unfoldable pub check_sorted :
    List (ℤ × Envelope) → VerificationReport → Result Raised VerificationReport
check_sorted [] r = ok r
check_sorted ((_, e) ∷ rest) r =
    check_links (text_or_empty e.receipt_hash) rest
      (if is_text (prev_of e) genesis_prev_receipt then chain_good r else chain_skip r)

-- `verify_chain_continuity`
unfoldable pub verify_chain_continuity :
    AuditPacket → VerificationReport → Result Raised VerificationReport
verify_chain_continuity p r = do sorted ← sort_by_seq p.receipts; check_sorted sorted r
