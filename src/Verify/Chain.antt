-- ===== src/Verify/Chain.antt =====
-- `verify_chain` of gateway/verify.py.
use agent_authorization_gate.Base.{
  ℕ, suc, Option, none, some, List, [], ◌∷◌, Result, ok, err, ◌>>=◌, Str, Bytes, if◌then◌else◌,
  codes,
}
use agent_authorization_gate.Base.Int.{pos}
use agent_authorization_gate.Base.Dict.{Dict, lookup}
use agent_authorization_gate.Canonical.{Fields}
use agent_authorization_gate.Receipts.{Envelope, Sig, genesis_prev_receipt}
use agent_authorization_gate.Verify.{
  Jwk, Verdict, pass, fail, inconclusive, ErrorCode, empty_chain, sequence_gap, chain_break, Raised,
  key_error, Check, VerificationResult, get, is_text, to_int, slice, int_eq, verify_receipt,
}

-- `envelope.get("sig", {}).get("kid", "")`
abbrev kid_of : Option Sig → Str
kid_of none = []
kid_of (some s) = elim s.kid [ none ↦ [] | some kid ↦ kid ]

-- `(keys_by_kid or {}).get(kid, public_key_jwk)`; a missing `keys_by_kid` is the empty dict.
abbrev pub resolve : Dict Jwk → Jwk → Str → Jwk
resolve keys key kid = elim (lookup kid keys) [ none ↦ key | some k ↦ k ]

unfoldable pub key_for : Dict Jwk → Jwk → Envelope → Jwk
key_for keys key e = resolve keys key (kid_of e.sig)

-- `d[key]`
unfoldable pub need {ℓ} : {A : Type ℓ} → Option A → Result Raised A
need none = err key_error
need (some a) = ok a

abbrev pub verdicts : Verdict → Verdict → List ErrorCode → Result Raised VerificationResult
verdicts integrity validity errors =
    ok (record { receipt_integrity = integrity; chain_validity = validity; errors = errors })

-- What follows the verification of one envelope: its place and its link, then the rest of the chain.
unfoldable pub link_body :
    ℕ
    → Str
    → Fields
    → Option Str
    → (Str → Result Raised VerificationResult)
    → Result Raised VerificationResult
link_body seq prev body claimed next = do
  seq_value ← need (get (codes "seq") body)
  actual_seq ← to_int seq_value
  if int_eq actual_seq (pos seq)
      then (do
        actual_prev ← need (get (codes "prev_receipt") body)
        if is_text actual_prev prev
            then (do hash ← need claimed; next hash)
            else (do _ ← slice actual_prev; verdicts inconclusive fail (chain_break ∷ [])))
      else verdicts inconclusive fail (sequence_gap ∷ [])

unfoldable pub link_step :
    ℕ
    → Str
    → Envelope
    → VerificationResult
    → (Str → Result Raised VerificationResult)
    → Result Raised VerificationResult
link_step seq prev e single next = elim single.receipt_integrity [
  | fail ↦ verdicts fail inconclusive single.errors
  | _ ↦ (do body ← need e.body; link_body seq prev body e.receipt_hash next)
]

module _ (sha256 : Bytes → Bytes) (check : Str → Str → Bytes → Check) (keys : Dict Jwk)
    (key : Jwk) where
  -- The loop, with `expected_seq` and `expected_prev`.
  unfoldable pub verify_links : ℕ → Str → List Envelope → Result Raised VerificationResult
  verify_links seq prev [] = verdicts pass pass []
  verify_links seq prev (e ∷ es) = do
    single ← verify_receipt sha256 check e (key_for keys key e) none
    link_step seq prev e single (λ hash. verify_links (suc seq) hash es)

  unfoldable pub verify_chain : List Envelope → Result Raised VerificationResult
  verify_chain [] = verdicts inconclusive inconclusive (empty_chain ∷ [])
  verify_chain (e ∷ es) = verify_links 1 genesis_prev_receipt (e ∷ es)
