-- ===== src/Canonical/Keys.antt =====
-- The key order of gateway/canonical.py: a dict's canonical form does not depend on insertion order.
use agent_authorization_gate.Base.{
  ℕ, ◌>>=◌, ◌≡◌, ◌≢◌, refl, List, [], ◌∷◌, Str, arith, ok, err, ◌∙◌, Result, ap, All, ◌<◌, ◌⊎◌, ◌≤◌,
  Bool-cases, ◌+◌, leb, ◌-◌, inl, ◌/◌, inr, ◌%◌,
}
use agent_authorization_gate.Canonical.{
  Sign, less, equal, greater, compare_units, compare_keys_jcs, insert_pair, Value, Fields, field,
  canonicalize, serialize, serialize_fields, to_utf16_units, SerializeError,
  canonicalization_failed, encode_result,
}

abbrev flip : Sign → Sign
flip less = greater
flip equal = equal
flip greater = less

compare_units-flip : (a b : List ℕ) → compare_units b a ≡ flip (compare_units a b)
unfolding compare_units
compare_units-flip [] [] = refl
compare_units-flip [] (y ∷ b) = refl
compare_units-flip (x ∷ a) [] = refl
compare_units-flip (x ∷ a) (y ∷ b) = ground (arith, compare_units-flip a b)

-- A key that stands after `i` and before `j` puts `j` after `i`.
compare_units-between :
    (k i j : List ℕ)
    → compare_units k i ≡ greater
    → compare_units k j ≡ less
    → compare_units j i ≡ greater
unfolding compare_units
compare_units-between [] [] j p q = cc
compare_units-between [] (y ∷ i) j p q = cc
compare_units-between (x ∷ k) i [] p q = cc
compare_units-between (x ∷ k) [] (z ∷ j) p q = refl
compare_units-between (x ∷ k) (y ∷ i) (z ∷ j) p q = ground (arith, compare_units-between k i j)

pub compare-flip : (a b : Str) → compare_keys_jcs b a ≡ flip (compare_keys_jcs a b)
unfolding compare_keys_jcs
compare-flip a b = compare_units-flip (to_utf16_units a) (to_utf16_units b)

pub compare-between :
    (k i j : Str)
    → compare_keys_jcs k i ≡ greater
    → compare_keys_jcs k j ≡ less
    → compare_keys_jcs j i ≡ greater
unfolding compare_keys_jcs
compare-between k i j =
    compare_units-between (to_utf16_units k) (to_utf16_units i) (to_utf16_units j)

-- Two keys that the order tells apart can be sorted in either order.
insert_pair_comm :
    (k j : Str) (v w : Str) (pairs : List (Str × Str))
    → compare_keys_jcs k j ≢ equal
    → insert_pair k v (insert_pair j w pairs) ≡ insert_pair j w (insert_pair k v pairs)
unfolding insert_pair
insert_pair_comm k j v w [] n = ground (arith, compare-flip k j)
insert_pair_comm k j v w ((i, u) ∷ pairs) n = ground (
  arith,
  compare-flip k j,
  compare-between k i j,
  compare-between j i k,
  insert_pair_comm k j v w pairs n,
)

-- A Unicode scalar value: a code point that is no surrogate.
abbrev pub IsScalar : ℕ → Type 0
IsScalar cp = (cp < 0xD800) ⊎ ((0xE000 ≤ cp) × (cp < 0x110000))

equal_units : (a b : List ℕ) → compare_units a b ≡ equal → a ≡ b
unfolding compare_units
equal_units [] [] e = refl
equal_units [] (y ∷ b) e = cc
equal_units (x ∷ a) [] e = cc
equal_units (x ∷ a) (y ∷ b) e =
    let head : x ≡ y = ground arith in let rest = equal_units a b (ground arith) in cc

pairs_differ :
    (x y : ℕ)
    → 0xFFFF < x
    → 0xFFFF < y
    → 0xD800 + (x - 0x10000) / 0x400 ≡ 0xD800 + (y - 0x10000) / 0x400
    → 0xDC00 + (x - 0x10000) % 0x400 ≡ 0xDC00 + (y - 0x10000) % 0x400
    → x ≡ y
pairs_differ x y p q h l = omega arith

low_apart :
    (x y : ℕ)
    → x ≤ 0xFFFF
    → 0xFFFF < y
    → IsScalar x
    → IsScalar y
    → x ≢ 0xD800 + (y - 0x10000) / 0x400
low_apart x y p q (inl s) (inl t) e = omega arith
low_apart x y p q (inl s) (inr t) e = omega (arith, t.0, t.1)
low_apart x y p q (inr s) (inl t) e = omega arith
low_apart x y p q (inr s) (inr t) e = omega (arith, s.0, t.1)

units_scalar :
    (x y : ℕ) (a b : Str)
    → IsScalar x
    → IsScalar y
    → to_utf16_units (x ∷ a) ≡ to_utf16_units (y ∷ b)
    → (x ≡ y) × (to_utf16_units a ≡ to_utf16_units b)
unfolding to_utf16_units
units_scalar x y a b sx sy e = elim (Bool-cases (leb x 0xFFFF)) [
  | inl p ↦ elim (Bool-cases (leb y 0xFFFF)) [
    | inl q ↦ let f = rw (p, q) at e in (cc, cc)
    | inr q ↦
        let f = rw (p, q) at e in absurd (low_apart x y (ground arith) (ground arith) sx sy cc)
  ]
  | inr p ↦ elim (Bool-cases (leb y 0xFFFF)) [
    | inl q ↦
        let f = rw (p, q) at e in absurd (low_apart y x (ground arith) (ground arith) sy sx cc)
    | inr q ↦
        let f = rw (p, q) at e in
        let high : 0xD800 + (x - 0x10000) / 0x400 ≡ 0xD800 + (y - 0x10000) / 0x400 = cc in
        let low : 0xDC00 + (x - 0x10000) % 0x400 ≡ 0xDC00 + (y - 0x10000) % 0x400 = cc in
        (pairs_differ x y (ground arith) (ground arith) high low, cc)
  ]
]

-- The UTF-16 units determine a text of scalar values.
units-injective :
    (a b : Str) → All IsScalar a → All IsScalar b → to_utf16_units a ≡ to_utf16_units b → a ≡ b
unfolding to_utf16_units
units-injective [] [] p q e = refl
units-injective [] (y ∷ b) p q e = absurd (ground arith)
units-injective (x ∷ a) [] p q e = absurd (ground arith)
units-injective (x ∷ a) (y ∷ b) (sx, p) (sy, q) e =
    let (same, rest) = units_scalar x y a b sx sy e in let tail = units-injective a b p q rest in cc

-- Different keys are told apart by the order.
keys_apart : (k j : Str) → All IsScalar k → All IsScalar j → k ≢ j → compare_keys_jcs k j ≢ equal
unfolding compare_keys_jcs
keys_apart k j p q n e =
    n (units-injective k j p q (equal_units (to_utf16_units k) (to_utf16_units j) e))

-- One dict is the other with its entries in another order; the entries that change places have
-- different keys, of Unicode scalar values.
pub data Reordered : Fields → Fields → Type 0 where
  same : (fs : Fields) → Reordered fs fs
  swap :
      (k j : Str) (v w : Value) (fs : Fields)
      → All IsScalar k
      → All IsScalar j
      → k ≢ j
      → Reordered (field k v (field j w fs)) (field j w (field k v fs))
  under :
      (k : Str) (v : Value) {fs gs : Fields}
      → Reordered fs gs
      → Reordered (field k v fs) (field k v gs)
  after : {fs gs hs : Fields} → Reordered fs gs → Reordered gs hs → Reordered fs hs

-- `_serialize` has one way to fail.
only_failure : (e : SerializeError) → canonicalization_failed ≡ e
only_failure canonicalization_failed = refl

insert_two_comm :
    (k j : Str) (a b : Result SerializeError Str) (c : Result SerializeError (List (Str × Str)))
    → compare_keys_jcs k j ≢ equal
    → (do v ← a; ps ← (do w ← b; qs ← c; ok (insert_pair j w qs)); ok (insert_pair k v ps))
      ≡ (do w ← b; ps ← (do v ← a; qs ← c; ok (insert_pair k v qs)); ok (insert_pair j w ps))
insert_two_comm k j (ok v) (ok w) (ok ps) n = ap ok (insert_pair_comm k j v w ps n)
insert_two_comm k j (ok v) (ok w) (err canonicalization_failed) n = refl
insert_two_comm k j (ok v) (err canonicalization_failed) c n = refl
insert_two_comm k j (err canonicalization_failed) (ok w) (ok ps) n = refl
insert_two_comm k j (err canonicalization_failed) (ok w) (err canonicalization_failed) n = refl
insert_two_comm k j (err canonicalization_failed) (err e) c n = ap err (only_failure e)

under-equal :
    (k : Str) (v : Value) (fs gs : Fields)
    → serialize_fields fs ≡ serialize_fields gs
    → serialize_fields (field k v fs) ≡ serialize_fields (field k v gs)
under-equal k v fs gs e = unfold serialize_fields in rw e

fields-reordered : {fs gs : Fields} → Reordered fs gs → serialize_fields fs ≡ serialize_fields gs
fields-reordered (same fs) = refl
fields-reordered (swap k j v w fs p q n) =
    unfold serialize_fields in
    insert_two_comm k j (serialize v) (serialize w) (serialize_fields fs) (keys_apart k j p q n)
fields-reordered (under k v {fs} {gs} r) = under-equal k v fs gs (fields-reordered r)
fields-reordered (after r s) = fields-reordered r ∙ fields-reordered s

dict-equal :
    (fs gs : Fields)
    → serialize_fields fs ≡ serialize_fields gs
    → serialize (Value.dict fs) ≡ serialize (Value.dict gs)
dict-equal fs gs e = unfold serialize in rw e

-- The canonical bytes of a dict, or its error, do not depend on the order in which its keys were
-- inserted, if the keys are different texts of Unicode scalar values.
pub canonicalize-reordered :
    {fs gs : Fields} → Reordered fs gs → canonicalize (Value.dict fs) ≡ canonicalize (Value.dict gs)
canonicalize-reordered {fs} {gs} r =
    let e : serialize (Value.dict fs) ≡ serialize (Value.dict gs) =
      dict-equal fs gs (fields-reordered r) in
    unfold canonicalize in ap encode_result e
