-- ===== src/Canonical/Tests.antt =====
-- Tests of gateway/canonical.py, and an instance of its theorem.
use agent_authorization_gate.Base.{
  ◌≡◌, refl, ok, err, codes, true, none, ◌≢◌, inl, arith, str_eq, str_ne,
}
use agent_authorization_gate.Base.Int.{negsuc, show_int}
use agent_authorization_gate.Canonical.{
  Value, Fields, end, field, nil, cons, canonicalize, compare_keys_jcs, canonicalization_error,
  serialize, insert_pair, encode_utf8, serialize_string, serialize_char,
}
use agent_authorization_gate.Canonical.Keys.{swap, canonicalize-reordered}

abbrev sample : Fields
sample =
    field (codes "b") (Value.list (cons (Value.int (negsuc 4)) (cons (Value.bool true) nil)))
      (field (codes "a") (Value.str (codes "x\"y")) end)

abbrev sorted : Fields
sorted =
    field (codes "a") (Value.str (codes "x\"y")) (
      field (codes "b") (Value.list (cons (Value.int (negsuc 4)) (cons (Value.bool true) nil))) end)

canonical_sample :
    canonicalize (Value.dict sample) ≡ ok (codes "{\"a\":\"x\\\"y\",\"b\":[-5,true]}")
unfolding canonicalize serialize insert_pair encode_utf8 compare_keys_jcs serialize_string
    serialize_char show_int
canonical_sample = refl

float_refused : canonicalize (Value.list (cons (Value.float none) nil)) ≡ err canonicalization_error
unfolding canonicalize serialize
float_refused = refl

keys_differ : codes "b" ≢ codes "a"
unfolding str_eq
keys_differ = str_ne (codes "b") (codes "a") refl

canonicalize-reordered_example : canonicalize (Value.dict sample) ≡ canonicalize (Value.dict sorted)
canonicalize-reordered_example = canonicalize-reordered (
    swap (codes "b") (codes "a")
      (Value.list (cons (Value.int (negsuc 4)) (cons (Value.bool true) nil)))
      (Value.str (codes "x\"y")) end (inl (omega arith), tt) (inl (omega arith), tt) keys_differ)
