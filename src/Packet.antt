-- ===== src/Packet.antt =====
-- gateway/audit_packet_verifier.py: the offline verification of an exported audit packet. Its
-- canonicalizer, its Merkle hashes and its base64 are copies of those of the gateway, and are taken
-- from Canonical, Merkle and Verify here. `check x value message` stands for the Ed25519 verification
-- of a base64url signature under the base64url key `x`, and `rpc url tx` for the answer of a public
-- RPC endpoint. Error messages are dropped and their kinds kept.
pub mod Signatures
pub mod Links
pub mod Proofs
pub mod Crosscheck
pub mod Verifier
pub mod Passing
pub mod Chained
pub mod Checked
pub mod Ordered
pub mod Sorted
pub mod Walks
pub mod Stages
pub mod Verdict
pub mod Tallies
use agent_authorization_gate.Base.{
  ℕ, zero, suc, ◌+◌, Bool, true, false, not, ◌&&◌, ◌||◌, Option, none, some, List, [], ◌∷◌, ◌++◌,
  Result, ok, err, ◌>>=◌, Str, Bytes, codes, str_eq, if◌then◌else◌, ◌==◌, leb, length, filter,
  remove_prefix, contains_text,
}
use agent_authorization_gate.Base.Int.{ℤ, pos, negsuc}
use agent_authorization_gate.Base.Dict.{Dict}
use agent_authorization_gate.Canonical.{Value, Items, Fields, nil, cons, end, field, canonicalize}
use agent_authorization_gate.Merkle.{ProofStep, recompute_root}
use agent_authorization_gate.Receipts.{Envelope, Sig, genesis_prev_receipt, receipt_hash_of}
use agent_authorization_gate.Verify.{
  Jwk, Raised, value_error, Check, valid, invalid, failed, get, is_text, to_int, slice, same_text,
}

pub data PacketError : Type 0 where
  canonicalization_failed hash_mismatch no_public_key invalid_signature signature_error :
      PacketError
  chain_break root_mismatch anchor_not_found root_not_in_calldata rpc_error : PacketError
  receipt_count_wrong approval_count_wrong denial_count_wrong anchor_count_wrong : PacketError

pub record VerificationReport : Type 0 where
  pub receipt_sig_ok : ℕ
  pub receipt_sig_fail : ℕ
  pub receipt_hash_ok : ℕ
  pub receipt_hash_fail : ℕ
  pub chain_links_ok : ℕ
  pub chain_links_fail : ℕ
  pub chain_links_skip : ℕ
  pub inclusion_ok : ℕ
  pub inclusion_fail : ℕ
  pub anchor_ok : ℕ
  pub anchor_fail : ℕ
  pub anchor_skip : ℕ
  pub metadata_ok : Bool
  pub errors : List PacketError

abbrev pub new_report : VerificationReport
new_report = record {
  receipt_sig_ok = 0;
  receipt_sig_fail = 0;
  receipt_hash_ok = 0;
  receipt_hash_fail = 0;
  chain_links_ok = 0;
  chain_links_fail = 0;
  chain_links_skip = 0;
  inclusion_ok = 0;
  inclusion_fail = 0;
  anchor_ok = 0;
  anchor_fail = 0;
  anchor_skip = 0;
  metadata_ok = true;
  errors = [];
}

-- `passed`
unfoldable pub passed : VerificationReport → Bool
passed r =
    (r.receipt_sig_fail == 0)
    && (r.receipt_hash_fail == 0)
    && (r.chain_links_fail == 0)
    && (r.inclusion_fail == 0)
    && (r.anchor_fail == 0)
    && r.metadata_ok

-- The number by which `summary` gives its verdict: PASS if it is 0.
unfoldable pub total_failures : VerificationReport → ℕ
total_failures r =
    r.receipt_sig_fail
    + r.receipt_hash_fail
    + r.chain_links_fail
    + r.inclusion_fail
    + r.anchor_fail
    + (if r.metadata_ok then 0 else 1)

-- An inclusion proof of the packet, under its receipt hash.
pub record ProofData : Type 0 where
  pub receipt_hash : Str
  pub merkle_root : Option Str
  pub proof : List ProofStep

pub record Anchor : Type 0 where
  pub tx_hash : Option Str
  pub merkle_root : Option Str

-- The counts of the metadata; `none` is a key that is missing or not bound to a natural number.
pub record Metadata : Type 0 where
  pub receipt_count : Option ℕ
  pub approval_count : Option ℕ
  pub denial_count : Option ℕ
  pub anchor_count : Option ℕ

pub record AuditPacket : Type 0 where
  pub receipts : List Envelope
  pub anchor_proofs : List Anchor
  pub inclusion_proofs : List ProofData
  pub public_keys : Dict Jwk
  pub metadata : Metadata

-- What the RPC endpoint answers: the calldata of the transaction, no transaction, or an exception.
pub data RpcAnswer : Type 0 where
  transaction : Str → RpcAnswer
  not_found : RpcAnswer
  rpc_failed : RpcAnswer

-- `d.get(key, "")`
abbrev pub text_or_empty : Option Str → Str
text_or_empty none = []
text_or_empty (some s) = s

-- `receipt.get("body", {})`
abbrev pub body_or_empty : Option Fields → Fields
body_or_empty none = end
body_or_empty (some fs) = fs

-- The truth value of an object; a float is told apart from 0.0 by its truncation only, which serves
-- here since both go on as 0.
unfoldable pub is_truthy : Value → Bool
is_truthy Value.null = false
is_truthy (Value.bool b) = b
is_truthy (Value.int (pos zero)) = false
is_truthy (Value.int _) = true
is_truthy (Value.float (some (pos zero))) = false
is_truthy (Value.float _) = true
is_truthy (Value.str []) = false
is_truthy (Value.str (_ ∷ _)) = true
is_truthy (Value.list nil) = false
is_truthy (Value.list (cons _ _)) = true
is_truthy (Value.dict end) = false
is_truthy (Value.dict (field _ _ _)) = true
is_truthy Value.other = true

-- `_resolve_key`
unfoldable pub resolve_key : Str → Dict Jwk → Option Jwk
resolve_key kid [] = none
resolve_key kid ((label, jwk) ∷ keys) =
    if same_text jwk.kid (some kid) then some jwk else resolve_key kid keys

-- `sig.get("kid", "")` and `sig.get("value", "")` of `receipt.get("sig", {})`.
abbrev pub kid_or_empty : Option Sig → Str
kid_or_empty none = []
kid_or_empty (some s) = text_or_empty s.kid

abbrev pub value_or_empty : Option Sig → Str
value_or_empty none = []
value_or_empty (some s) = text_or_empty s.value
