-- ===== src/Verify/Accepted.antt =====
-- gateway/verify.py on one receipt that gateway/receipts.py issued.
use agent_authorization_gate.Base.{
  ℕ, suc, ◌≡◌, refl, ap, ◌∙◌, none, some, List, [], ◌∷◌, Result, ok, Str, Bytes, str_eq_refl, true,
  ◌==◌, codes, if◌then◌else◌, str_eq, Bool-cases, inl, inr,
}
use agent_authorization_gate.Base.Dict.{Dict}
use agent_authorization_gate.Base.Int.{show_nat, pos, int_of_str-show_nat}
use agent_authorization_gate.Canonical.{Value, canonicalize, Fields}
use agent_authorization_gate.Receipts.{
  Receipt, ReceiptChain, Request, Envelope, Sig, body_dict, envelope_dict, unsigned,
  receipt_hash_of, sign_decision, genesis_prev_receipt,
}
use agent_authorization_gate.Receipts.Issue.{next_seq, signed, sign_decision-ok}
use agent_authorization_gate.Verify.{
  Jwk, Verdict, pass, fail, inconclusive, sequence_gap, Check, valid, VerificationResult, Raised,
  open_envelope, signature_errors, verify_receipt, same_text, body_of, sig_of, hash_ok,
  bounded_check, get, to_int, int_eq, is_text, prev_receipt_of,
}
use agent_authorization_gate.Verify.Chain.{
  resolve, key_for, verify_links, verdicts, link_step, link_body, need,
}

-- `check` accepts every signature that `sign` makes, under the key `x`.
abbrev pub Signs : (Bytes → Str) → (Str → Str → Bytes → Check) → Str → Type 0
Signs sign check x = (b : Bytes) → check x (sign b) b ≡ valid

abbrev pub signer : Str → Str → Jwk
signer kid x = record { kid = some kid; x = some x }

pub get_seq : (r : Receipt) → get (codes "seq") (body_dict r) ≡ some (Value.str r.seq)
unfolding get body_dict str_eq
get_seq r = refl

pub get_prev :
    (r : Receipt) → get (codes "prev_receipt") (body_dict r) ≡ some (Value.str r.prev_receipt)
unfolding get body_dict str_eq
get_prev r = refl

pub to_int-show_nat : (n : ℕ) → to_int (Value.str (show_nat n)) ≡ ok (pos n)
unfolding to_int
to_int-show_nat n = rw (int_of_str-show_nat n, to_int) refl

unlinked_check :
    (body : Fields) (v : Value)
    → (validity : Verdict) × (bounded_check body v none ≡ ok (validity, []))
unfolding bounded_check
unlinked_check body v = elim (Bool-cases (is_text v genesis_prev_receipt)) [
  | inl t ↦ (pass, rw t refl)
  | inr f ↦ (inconclusive, rw f refl)
]

-- Verification without a chain when no check finds an error.
receipt_passes :
    (sha256 : Bytes → Bytes) (check : Str → Str → Bytes → Check) (e : Envelope) (key : Jwk)
    (body : Fields) (sig : Sig) (b : Bytes) (validity : Verdict)
    → open_envelope e key ≡ ok (body, sig, b)
    → hash_ok e.receipt_hash (receipt_hash_of sha256 b) ≡ true
    → signature_errors sha256 check sig key b ≡ []
    → bounded_check body (prev_receipt_of body) none ≡ ok (validity, [])
    → verify_receipt sha256 check e key none ≡ verdicts pass validity []
unfolding verify_receipt
receipt_passes sha256 check e key body sig b validity o h s v =
    rw (o, verify_receipt) (rw h (rw s (rw v refl)))

next_link :
    (sha256 : Bytes → Bytes) (check : Str → Str → Bytes → Check) (keys : Dict Jwk)
    (fallback key : Jwk) (seq : ℕ) (prev : Str) (e : Envelope) (es : List Envelope) (body : Fields)
    (validity : Verdict)
    → key_for keys fallback e ≡ key
    → verify_receipt sha256 check e key none ≡ verdicts pass validity []
    → e.body ≡ some body
    → verify_links sha256 check keys fallback seq prev (e ∷ es)
      ≡ link_body seq prev body e.receipt_hash
          (λ hash. verify_links sha256 check keys fallback (suc seq) hash es)
unfolding verify_links link_step need
next_link sha256 check keys fallback key seq prev e es body validity k v f =
    rw k (rw (v, verify_links) (rw (f, link_step) refl))

module _ (sha256 : Bytes → Bytes) (sign : Bytes → Str) (check : Str → Str → Bytes → Check) (x : Str)
    (signs : Signs sign check x) where
  -- The envelope of a signed receipt.
  abbrev envelope_of : Str → Request → ReceiptChain → Bytes → Envelope
  envelope_of ts q c b = envelope_dict (signed sha256 sign ts q c b)

  open_signed :
      (ts : Str) (q : Request) (c : ReceiptChain) (b : Bytes)
      → canonicalize (Value.dict (body_dict (unsigned ts q (next_seq c)))) ≡ ok b
      → open_envelope (envelope_of ts q c b) (signer c.kid x)
        ≡ ok (
          body_dict (unsigned ts q (next_seq c)),
          record { alg = some (codes "EdDSA"); kid = some c.kid; value = some (sign b) },
          b,
        )
  unfolding open_envelope envelope_dict body_of sig_of same_text body_dict
  open_signed ts q c b e = (rw (str_eq_refl c.kid) (rw (str_eq_refl (codes "EdDSA")) (rw e refl)))

  signature_accepted :
      (s : Sig) (kid : Str) (b : Bytes)
      → s.value ≡ some (sign b)
      → signature_errors sha256 check s (signer kid x) b ≡ []
  unfolding signature_errors
  signature_accepted s kid b e = rw e (rw (signs b) refl)

  hash_accepted :
      (b : Bytes) → hash_ok (some (receipt_hash_of sha256 b)) (receipt_hash_of sha256 b) ≡ true
  unfolding hash_ok
  hash_accepted b = str_eq_refl (receipt_hash_of sha256 b)

  hash_of_envelope :
      (ts : Str) (q : Request) (c : ReceiptChain) (b : Bytes)
      → hash_ok (envelope_of ts q c b).receipt_hash (receipt_hash_of sha256 b) ≡ true
  unfolding envelope_dict
  hash_of_envelope ts q c b = hash_accepted b

  -- An issued receipt is accepted.
  receipt_accepted :
      (ts : Str) (q : Request) (c : ReceiptChain) (b : Bytes)
      → canonicalize (Value.dict (body_dict (unsigned ts q (next_seq c)))) ≡ ok b
      → (validity : Verdict) × (verify_receipt sha256 check
            (envelope_of ts q c b)
            (signer c.kid x)
            none
          ≡ verdicts pass validity [])
  receipt_accepted ts q c b e =
      let body = body_dict (unsigned ts q (next_seq c)) in
      let (validity, v) = unlinked_check body (prev_receipt_of body) in
      let sig : Sig = record {
        alg = some (codes "EdDSA");
        kid = some c.kid;
        value = some (sign b);
      } in
      (
        validity,
        receipt_passes sha256 check (envelope_of ts q c b) (signer c.kid x) body sig b validity
            (open_signed ts q c b e) (hash_of_envelope ts q c b)
            (signature_accepted sig c.kid b refl) v,
      )

  link_signed :
      (seq : ℕ) (ts : Str) (q : Request) (c : ReceiptChain) (b : Bytes)
      (next : Str → Result Raised VerificationResult)
      → link_body seq c.prev_receipt_hash
          (body_dict (unsigned ts q (next_seq c)))
          (some (receipt_hash_of sha256 b))
          next
        ≡ (if suc c.seq == seq
            then next (receipt_hash_of sha256 b)
            else verdicts inconclusive fail (sequence_gap ∷ []))
  unfolding link_body need is_text int_eq
  link_signed seq ts q c b next = rw (get_seq (unsigned ts q (next_seq c))) (
      rw (to_int-show_nat (suc c.seq))
        (rw (get_prev (unsigned ts q (next_seq c))) (rw (str_eq_refl c.prev_receipt_hash) refl)))

  key_signed :
      (keys : Dict Jwk) (fallback : Jwk) (ts : Str) (q : Request) (c : ReceiptChain) (b : Bytes)
      → resolve keys fallback c.kid ≡ signer c.kid x
      → key_for keys fallback (envelope_of ts q c b) ≡ signer c.kid x
  unfolding key_for envelope_dict
  key_signed keys fallback ts q c b k = k

  body_signed :
      (ts : Str) (q : Request) (c : ReceiptChain) (b : Bytes)
      → (envelope_of ts q c b).body ≡ some (body_dict (unsigned ts q (next_seq c)))
  unfolding envelope_dict body_dict
  body_signed ts q c b = refl

  link_of_envelope :
      (seq : ℕ) (ts : Str) (q : Request) (c : ReceiptChain) (b : Bytes)
      (next : Str → Result Raised VerificationResult)
      → link_body seq c.prev_receipt_hash
          (body_dict (unsigned ts q (next_seq c)))
          (envelope_of ts q c b).receipt_hash
          next
        ≡ (if suc c.seq == seq
            then next (receipt_hash_of sha256 b)
            else verdicts inconclusive fail (sequence_gap ∷ []))
  unfolding envelope_dict
  link_of_envelope seq ts q c b next = link_signed seq ts q c b next

  -- The loop on an issued receipt: it goes on from the chain that issued it, or finds a gap.
  pub link_issued :
      (keys : Dict Jwk) (fallback : Jwk) (seq : ℕ) (ts : Str) (q : Request) (c c' : ReceiptChain)
      (r : Receipt) (es : List Envelope)
      → resolve keys fallback c.kid ≡ signer c.kid x
      → sign_decision sha256 sign ts q c ≡ (ok r, c')
      → verify_links sha256 check keys fallback seq c.prev_receipt_hash (envelope_dict r ∷ es) ≡ (
          if suc c.seq == seq
          then verify_links sha256 check keys fallback (suc seq) c'.prev_receipt_hash es
          else verdicts inconclusive fail (sequence_gap ∷ []))
  link_issued keys fallback seq ts q c c' r es k h =
      let (b, e, f, g) = sign_decision-ok sha256 sign ts q c c' r h in
      let (validity, v) = receipt_accepted ts q c b e in
      let prev : c'.prev_receipt_hash ≡ receipt_hash_of sha256 b =
        ap (λ (d : ReceiptChain). d.prev_receipt_hash) g in
      let env = envelope_of ts q c b in
      rw f (
        rw prev (
          next_link sha256 check keys fallback (signer c.kid x) seq c.prev_receipt_hash env es
            (body_dict (unsigned ts q (next_seq c))) validity (key_signed keys fallback ts q c b k)
            v (body_signed ts q c b)
          ∙ link_of_envelope seq ts q c b
              (λ hash. verify_links sha256 check keys fallback (suc seq) hash es)))
