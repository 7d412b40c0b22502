-- ===== src/Canonical.antt =====
-- gateway/canonical.py: the JCS canonicalizer, over a data type of the Python values that it inspects.
pub mod Keys
pub mod Tests
use agent_authorization_gate.Base.{
  ℕ, zero, suc, ◌+◌, ◌-◌, ◌*◌, ◌/◌, ◌%◌, Bool, true, false, ◌&&◌, Option, none, some, List, [], ◌∷◌,
  ◌++◌, Result, ok, err, ◌>>=◌, Str, Bytes, codes, str_eq, hex_digit, ltb, leb, ◌==◌, if◌then◌else◌,
}
use agent_authorization_gate.Base.Int.{ℤ, show_int}

mutual
  -- A Python object. A float carries its truncation, or nothing if it is NaN or an infinity; a value of
  -- any other type is `other`.
  pub data Value : Type 0 where
    null : Value
    bool : Bool → Value
    int : ℤ → Value
    float : Option ℤ → Value
    str : Str → Value
    list : Items → Value
    dict : Fields → Value
    other : Value

  pub data Items : Type 0 where
    nil : Items
    cons : Value → Items → Items

  -- A dict's entries in insertion order.
  pub data Fields : Type 0 where
    end : Fields
    field : Str → Value → Fields → Fields

-- The only error that `_serialize` raises, `CanonicalizationError`.
pub data SerializeError : Type 0 where
  canonicalization_failed : SerializeError

-- `CanonicalizationError`, and the `UnicodeEncodeError` of `encode("utf-8")`.
pub data CanonicalError : Type 0 where
  canonicalization_error unicode_error : CanonicalError

-- `_to_utf16_units`
unfoldable pub to_utf16_units : Str → List ℕ
to_utf16_units [] = []
to_utf16_units (cp ∷ s) =
    if leb cp 0xFFFF
    then cp ∷ to_utf16_units s
    else (0xD800 + (cp - 0x10000) / 0x400) ∷ (0xDC00 + (cp - 0x10000) % 0x400) ∷ to_utf16_units s

pub data Sign : Type 0 where
  less equal greater : Sign

-- The comparison of the unit lists: the `zip` loop, then the lengths.
unfoldable pub compare_units : List ℕ → List ℕ → Sign
compare_units [] [] = equal
compare_units [] (_ ∷ _) = less
compare_units (_ ∷ _) [] = greater
compare_units (a ∷ s) (b ∷ t) =
    if ltb a b then less else if ltb b a then greater else compare_units s t

-- `_compare_keys_jcs`
unfoldable pub compare_keys_jcs : Str → Str → Sign
unfolding to_utf16_units compare_units
compare_keys_jcs a b = compare_units (to_utf16_units a) (to_utf16_units b)

-- `f'\\u{cp:04x}'`
abbrev unicode_escape : ℕ → Str
unicode_escape cp =
    codes "\\u"
    ++ hex_digit (cp / 4096 % 16)
      ∷ hex_digit (cp / 256 % 16)
      ∷ hex_digit (cp / 16 % 16)
      ∷ hex_digit (cp % 16)
      ∷ []

-- What `_serialize_string` appends for one character.
unfoldable pub serialize_char : ℕ → Str
unfolding hex_digit
serialize_char cp =
    if cp == 34
    then codes "\\\""
    else if cp == 92
    then codes "\\\\"
    else if cp == 8
    then codes "\\b"
    else if cp == 12
    then codes "\\f"
    else if cp == 10
    then codes "\\n"
    else if cp == 13
    then codes "\\r"
    else if cp == 9
    then codes "\\t"
    else if ltb cp 0x20
    then unicode_escape cp
    else cp ∷ []

abbrev serialize_chars : Str → Str
serialize_chars [] = []
serialize_chars (cp ∷ s) = serialize_char cp ++ serialize_chars s

-- `_serialize_string`
unfoldable pub serialize_string : Str → Str
serialize_string s = 34 ∷ (serialize_chars s ++ 34 ∷ [])

-- `",".join(texts)`
abbrev join : List Str → Str
join [] = []
join (s ∷ []) = s
join (s ∷ t ∷ texts) = s ++ b',' ∷ join (t ∷ texts)

-- One step of the sort by key, which is stable.
unfoldable pub insert_pair : Str → Str → List (Str × Str) → List (Str × Str)
insert_pair k v [] = (k, v) ∷ []
insert_pair k v ((j, w) ∷ pairs) = elim (compare_keys_jcs k j) [
  | greater ↦ (j, w) ∷ insert_pair k v pairs
  | _ ↦ (k, v) ∷ (j, w) ∷ pairs
]

abbrev show_pairs : List (Str × Str) → List Str
show_pairs [] = []
show_pairs ((k, v) ∷ pairs) = (serialize_string k ++ b':' ∷ v) ∷ show_pairs pairs

unfoldable mutual
  -- `_serialize`. All failures raise the same error, so the order in which a dict's values are
  -- serialized does not show.
  pub serialize : Value → Result SerializeError Str
  serialize null = ok (codes "null")
  serialize (bool true) = ok (codes "true")
  serialize (bool false) = ok (codes "false")
  serialize (int n) = ok (show_int n)
  serialize (float x) = err canonicalization_failed
  serialize (str s) = ok (serialize_string s)
  serialize (list xs) = do texts ← serialize_items xs; ok (b'[' ∷ (join texts ++ b']' ∷ []))
  serialize (dict fs) = do
    pairs ← serialize_fields fs
    ok (b'{' ∷ (join (show_pairs pairs) ++ b'}' ∷ []))
  serialize other = err canonicalization_failed

  pub serialize_items : Items → Result SerializeError (List Str)
  serialize_items nil = ok []
  serialize_items (cons x xs) = do s ← serialize x; texts ← serialize_items xs; ok (s ∷ texts)

  -- The keys with their serialized values, sorted by key.
  pub serialize_fields : Fields → Result SerializeError (List (Str × Str))
  serialize_fields end = ok []
  serialize_fields (field k v fs) = do
    s ← serialize v
    pairs ← serialize_fields fs
    ok (insert_pair k s pairs)

-- `s.encode("utf-8")` of one code point; a surrogate has no encoding.
unfoldable pub encode_char : ℕ → Option Bytes
encode_char cp =
    if ltb cp 0x80
    then some (cp ∷ [])
    else if ltb cp 0x800
    then some ((0xC0 + cp / 64) ∷ (0x80 + cp % 64) ∷ [])
    else if leb 0xD800 cp && leb cp 0xDFFF
    then none
    else if ltb cp 0x10000
    then some ((0xE0 + cp / 4096) ∷ (0x80 + cp / 64 % 64) ∷ (0x80 + cp % 64) ∷ [])
    else some (
        (0xF0 + cp / 262144)
        ∷ (0x80 + cp / 4096 % 64)
        ∷ (0x80 + cp / 64 % 64)
        ∷ (0x80 + cp % 64)
        ∷ [])

unfoldable pub encode_utf8 : Str → Result CanonicalError Bytes
unfolding encode_char
encode_utf8 [] = ok []
encode_utf8 (cp ∷ s) = elim (encode_char cp) [
  | none ↦ err unicode_error
  | some b ↦ (do rest ← encode_utf8 s; ok (b ++ rest))
]

-- What `canonicalize` does with the text that `_serialize` returned, or its error.
abbrev pub encode_result : Result SerializeError Str → Result CanonicalError Bytes
encode_result (ok s) = encode_utf8 s
encode_result (err _) = err canonicalization_error

unfoldable pub canonicalize : Value → Result CanonicalError Bytes
canonicalize v = encode_result (serialize v)
