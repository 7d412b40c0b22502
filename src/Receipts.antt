-- ===== src/Receipts.antt =====
-- gateway/receipts.py: the receipt and its chain. `sign` stands for the gateway's Ed25519 signature
-- in base64url; the time stamp is an argument.
pub mod Issue
use agent_authorization_gate.Base.{
  ℕ, suc, Option, none, some, List, [], ◌∷◌, ◌++◌, map, Result, ok, err, Str, Bytes, codes, hex,
  remove_prefix,
}
use agent_authorization_gate.Base.Int.{show_nat}
use agent_authorization_gate.Canonical.{
  Value, Items, Fields, nil, cons, end, field, CanonicalError, canonicalize,
}

-- `"sha256:" + "0" * 64`
abbrev pub genesis_prev_receipt : Str
genesis_prev_receipt =
    codes "sha256:0000000000000000000000000000000000000000000000000000000000000000"

pub record Receipt : Type 0 where
  pub v : Str
  pub tenant : Str
  pub seq : Str
  pub ts : Str
  pub request_digest : Str
  pub policy_version : Str
  pub decision : Str
  pub reasons : List Str
  pub prev_receipt : Str
  pub token_jti : Option Str
  pub resource_registration_id : Option Str
  pub delegation_context : Option Fields
  pub receipt_hash : Str
  pub signature : Str
  pub kid : Str

abbrev strs : List Str → Items
strs [] = nil
strs (s ∷ texts) = cons (Value.str s) (strs texts)

-- `if value is not None: body[key] = value`, for a key that is not yet bound, before more of the same.
abbrev optional : Str → Option Value → Fields → Fields
optional k none more = more
optional k (some v) more = field k v more

abbrev optional_str : Option Str → Option Value
optional_str none = none
optional_str (some s) = some (Value.str s)

abbrev optional_dict : Option Fields → Option Value
optional_dict none = none
optional_dict (some fs) = some (Value.dict fs)

-- The three entries of the body that stand there only when they are set.
abbrev optional_entries : Receipt → Fields
optional_entries r = optional (codes "token_jti") (optional_str r.token_jti) (
    optional (codes "resource_registration_id") (optional_str r.resource_registration_id)
      (optional (codes "delegation_context") (optional_dict r.delegation_context) end))

unfoldable pub body_dict : Receipt → Fields
body_dict r = field (codes "v") (Value.str r.v) (
    field (codes "tenant") (Value.str r.tenant) (
      field (codes "seq") (Value.str r.seq) (
        field (codes "ts") (Value.str r.ts) (
          field (codes "request_digest") (Value.str r.request_digest) (
            field (codes "policy_version") (Value.str r.policy_version) (
              field (codes "decision") (Value.str r.decision) (
                field (codes "reasons") (Value.list (strs r.reasons)) (
                  field (codes "prev_receipt") (Value.str r.prev_receipt)
                    (optional_entries r)))))))))

-- The `sig` of an envelope; `none` is a key that is missing.
pub record Sig : Type 0 where
  pub alg : Option Str
  pub kid : Option Str
  pub value : Option Str

-- An envelope as any JSON object may be: `none` is a key that is missing.
pub record Envelope : Type 0 where
  pub body : Option Fields
  pub sig : Option Sig
  pub receipt_hash : Option Str

unfoldable pub envelope_dict : Receipt → Envelope
envelope_dict r = record {
  body = some (body_dict r);
  sig = some (record { alg = some (codes "EdDSA"); kid = some r.kid; value = some r.signature });
  receipt_hash = some r.receipt_hash;
}

-- The arguments of `sign_decision`.
pub record Request : Type 0 where
  pub request_digest : Str
  pub policy_version : Str
  pub decision : Str
  pub reasons : List Str
  pub token_jti : Option Str
  pub resource_registration_id : Option Str
  pub delegation_context : Option Fields

pub record ReceiptChain : Type 0 where
  pub tenant : Str
  pub kid : Str
  pub seq : ℕ
  pub prev_receipt_hash : Str
  pub receipts : List Receipt

-- `ReceiptChain(tenant, key, kid)`
abbrev pub new_chain : Str → Str → ReceiptChain
new_chain tenant kid = record {
  tenant = tenant;
  kid = kid;
  seq = 0;
  prev_receipt_hash = genesis_prev_receipt;
  receipts = [];
}

-- The receipt before its body is hashed and signed.
abbrev pub unsigned : Str → Request → ReceiptChain → Receipt
unsigned ts q c = record {
  v = codes "1";
  tenant = c.tenant;
  seq = show_nat c.seq;
  ts = ts;
  request_digest = q.request_digest;
  policy_version = q.policy_version;
  decision = q.decision;
  reasons = q.reasons;
  prev_receipt = c.prev_receipt_hash;
  token_jti = q.token_jti;
  resource_registration_id = q.resource_registration_id;
  delegation_context = q.delegation_context;
  receipt_hash = [];
  signature = [];
  kid = [];
}

-- `"sha256:" + hashlib.sha256(body_bytes).hexdigest()`
abbrev pub receipt_hash_of : (Bytes → Bytes) → Bytes → Str
receipt_hash_of sha256 b = codes "sha256:" ++ hex (sha256 b)

module _ (sha256 : Bytes → Bytes) (sign : Bytes → Str) where
  -- `sign_decision` once the body is canonicalized; the chain's `seq` is already the new one.
  unfoldable pub sign_body :
      Receipt
      → ReceiptChain
      → Result CanonicalError Bytes
      → Result CanonicalError Receipt × ReceiptChain
  sign_body r c (err e) = (err e, c)
  sign_body r c (ok b) =
      let signed : Receipt = record r {
        receipt_hash = receipt_hash_of sha256 b;
        signature = sign b;
        kid = c.kid;
      } in
      (
        ok signed,
        record c {
          prev_receipt_hash = receipt_hash_of sha256 b;
          receipts = c.receipts ++ signed ∷ [];
        },
      )

  -- `sign_decision`: `seq` has advanced when `canonicalize` raises.
  unfoldable pub sign_decision :
      Str → Request → ReceiptChain → Result CanonicalError Receipt × ReceiptChain
  sign_decision ts q c =
      let c' : ReceiptChain = record c { seq = suc c.seq } in
      let r = unsigned ts q c' in sign_body r c' (canonicalize (Value.dict (body_dict r)))

-- `get_receipt_hashes`
abbrev pub get_receipt_hashes : ReceiptChain → List Str
get_receipt_hashes c = map (λ r. remove_prefix (codes "sha256:") r.receipt_hash) c.receipts
