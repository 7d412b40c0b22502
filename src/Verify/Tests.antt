-- ===== src/Verify/Tests.antt =====
-- Instances of the theorems on gateway/receipts.py and gateway/verify.py, with a small hash and a
-- signature that repeats its message.
use agent_authorization_gate.Base.{
  ◌≡◌, refl, Option, none, some, [], ◌∷◌, map, Result, ok, err, Str, Bytes, codes, str_eq,
  str_eq_refl, if◌then◌else◌, hex, ◌≢◌,
}
use agent_authorization_gate.Base.Int.{show_nat}
use agent_authorization_gate.Base.Dict.{lookup}
use agent_authorization_gate.Fixtures.{toy_hash}
use agent_authorization_gate.Canonical.{
  Value, Fields, field, end, CanonicalError, canonicalization_error, canonicalize, serialize,
  insert_pair, encode_utf8, compare_keys_jcs, serialize_string, serialize_char,
}
use agent_authorization_gate.Receipts.{
  Receipt, ReceiptChain, Request, body_dict, envelope_dict, sign_body, sign_decision, new_chain,
  genesis_prev_receipt,
}
use agent_authorization_gate.Receipts.Issue.{Issued, done, step}
use agent_authorization_gate.Verify.{pass, fail, inconclusive, sequence_gap, Check, valid, invalid}
use agent_authorization_gate.Verify.Chain.{verdicts, verify_chain, resolve}
use agent_authorization_gate.Verify.Accepted.{Signs, signer}
use agent_authorization_gate.Verify.Issued.{Issued-verifies, failed_call_breaks_chain}
use agent_authorization_gate.Verify.Linked.{Linked, valid_chain-Linked}

abbrev pub echo : Bytes → Str
echo b = b

abbrev pub echo_check : Str → Str → Bytes → Check
echo_check x value b = if str_eq value b then valid else invalid

pub echo-Signs : Signs echo echo_check (codes "k")
echo-Signs b = rw (str_eq_refl b) refl

abbrev pub request : Option Fields → Request
request context = record {
  request_digest = codes "sha256:00";
  policy_version = codes "1";
  decision = codes "deny";
  reasons = codes "RESOURCE_NOT_REGISTERED" ∷ [];
  token_jti = none;
  resource_registration_id = none;
  delegation_context = context;
}

abbrev pub start : ReceiptChain
start = new_chain (codes "t") (codes "gw")

abbrev pub call : Option Fields → ReceiptChain → Result CanonicalError Receipt × ReceiptChain
call context c = sign_decision toy_hash echo (codes "now") (request context) c

abbrev bad_context : Option Fields
bad_context = some (field (codes "depth") (Value.float none) end)

-- The call that returned from a new chain, its receipt and its chain.
abbrev pub First : Type 0
First = (r : Receipt) × (c : ReceiptChain) × (call none start ≡ (ok r, c))

unfoldable pub first : First
unfolding sign_decision sign_body canonicalize serialize insert_pair encode_utf8 compare_keys_jcs
    serialize_string serialize_char show_nat body_dict hex
first = (_, _, refl)

pub Issued-once : (f : First) → Issued toy_hash echo start (f.0 ∷ []) f.1
Issued-once f = step (codes "now") (request none) f.2 done

own_key :
    resolve [] (signer (codes "gw") (codes "k")) (codes "gw") ≡ signer (codes "gw") (codes "k")
unfolding lookup
own_key = refl

Issued-verifies_example :
    verify_chain toy_hash echo_check []
      (signer (codes "gw") (codes "k"))
      (map envelope_dict first.1.receipts)
    ≡ verdicts pass pass []
Issued-verifies_example =
    Issued-verifies toy_hash echo echo_check (codes "k") echo-Signs []
      (signer (codes "gw") (codes "k")) (codes "t") (codes "gw") first.0 [] first.1 own_key
      (Issued-once first)

accepted :
    verify_chain toy_hash echo_check []
      (signer (codes "gw") (codes "k"))
      (map envelope_dict first.1.receipts)
    ≡ verdicts pass pass []
accepted =
    Issued-verifies toy_hash echo echo_check (codes "k") echo-Signs []
      (signer (codes "gw") (codes "k")) (codes "t") (codes "gw") first.0 [] first.1 own_key
      (Issued-once first)

valid_chain-Linked_example :
    (map envelope_dict first.1.receipts ≢ [])
    × Linked toy_hash echo_check []
        (signer (codes "gw") (codes "k"))
        1
        genesis_prev_receipt
        (map envelope_dict first.1.receipts)
valid_chain-Linked_example =
    valid_chain-Linked toy_hash echo_check [] (signer (codes "gw") (codes "k"))
      (map envelope_dict first.1.receipts) _ accepted refl

-- A call whose delegation context holds a float, then one without.
abbrev Failed : Type 0
Failed = (c : ReceiptChain) × (call bad_context start ≡ (err canonicalization_error, c))

failed : Failed
unfolding sign_decision sign_body canonicalize serialize body_dict
failed = (_, refl)

abbrev Second : Type 0
Second = (r : Receipt) × (d : ReceiptChain) × (call none failed.0 ≡ (ok r, d))

second : Second
unfolding failed sign_decision sign_body canonicalize serialize insert_pair encode_utf8
    compare_keys_jcs serialize_string serialize_char show_nat body_dict hex
second = (_, _, refl)

failed_call_breaks_chain_example :
    verify_chain toy_hash echo_check []
      (signer (codes "gw") (codes "k"))
      (map envelope_dict second.1.receipts)
    ≡ verdicts inconclusive fail (sequence_gap ∷ [])
failed_call_breaks_chain_example =
    failed_call_breaks_chain toy_hash echo echo_check (codes "k") echo-Signs []
      (signer (codes "gw") (codes "k")) (codes "t") (codes "gw") [] start failed.0 second.1 second.0
      (codes "now") (codes "now") (request bad_context) (request none) canonicalization_error
      own_key done failed.1 second.2
