-- ===== src/Resources.antt =====
-- gateway/resources.py without Firestore: the resource registry in memory and its cache. The clock is
-- read once for each call; the fields of a document that no operation here reads are left out.
pub mod Visible
pub mod Tests
use agent_authorization_gate.Base.{
  ℕ, zero, suc, ◌+◌, ◌-◌, Bool, true, false, ◌&&◌, ◌||◌, Option, none, some, List, [], ◌∷◌, ◌++◌,
  Result, ok, err, Str, length, all, drop, ltb, leb, ◌==◌, if◌then◌else◌,
}
use agent_authorization_gate.Base.Dict.{Dict, lookup, insert, erase}

pub data Status : Type 0 where
  active revoked : Status

pub record Resource : Type 0 where
  pub resource_id : Str
  pub display_name : Str
  pub status : Status
  pub registered_by : Str
  pub revoked_by : Option Str
  pub version : ℕ

-- `_cache` in the order of its use, and `_memory`.
pub record ResourceRegistry : Type 0 where
  pub cache : Dict (Bool × ℕ)
  pub memory : Dict Resource

pub data RegistryError : Type 0 where
  bad_resource_id bad_display_name resource_conflict not_actively_registered : RegistryError

-- `_CACHE_TTL` and `_cache_max`
abbrev pub cache_ttl : ℕ
cache_ttl = 60

abbrev pub cache_max : ℕ
cache_max = 1000

abbrev between : ℕ → ℕ → ℕ → Bool
between low high c = leb low c && leb c high

-- `[a-zA-Z0-9._/\-]`
abbrev id_char : ℕ → Bool
id_char c =
    between b'a' b'z' c
    || between b'A' b'Z' c
    || between b'0' b'9' c
    || c == b'.'
    || c == b'_'
    || c == b'/'
    || c == b'-'

-- `$` of a pattern also stands before a newline that ends the text.
unfoldable pub without_newline : Str → Str
without_newline [] = []
without_newline (c ∷ []) = if c == 10 then [] else c ∷ []
without_newline (c ∷ d ∷ s) = c ∷ without_newline (d ∷ s)

-- `validate_resource_id`
unfoldable pub validate_resource_id : Str → Bool
validate_resource_id s =
    let t = without_newline s in leb 1 (length t) && leb (length t) 256 && all id_char t

unfoldable pub validate_display_name : Str → Bool
validate_display_name s = leb 1 (length s) && leb (length s) 256

-- The cache without its oldest entries beyond the limit.
unfoldable pub trim : Dict (Bool × ℕ) → Dict (Bool × ℕ)
trim cache = drop (length cache - cache_max) cache

-- `_cache_put`
unfoldable pub cache_put : Str → Bool → ℕ → Dict (Bool × ℕ) → Dict (Bool × ℕ)
cache_put resource_id is_active now cache =
    trim (erase resource_id cache ++ (resource_id, (is_active, now)) ∷ [])

abbrev is_active_status : Option Resource → Bool
is_active_status none = false
is_active_status (some r) = elim r.status [ active ↦ true | revoked ↦ false ]

-- The version of a document that is registered anew.
abbrev next_version : Option Resource → ℕ
next_version none = 1
next_version (some r) = r.version + 1

unfoldable pub register :
    Str → Str → Str → ℕ → ResourceRegistry → Result RegistryError Resource × ResourceRegistry
register resource_id display_name registered_by now g =
    let existing = lookup resource_id g.memory in
    let doc : Resource = record {
      resource_id = resource_id;
      display_name = display_name;
      status = active;
      registered_by = registered_by;
      revoked_by = none;
      version = next_version existing;
    } in
    if validate_resource_id resource_id
    then (if validate_display_name display_name
        then (if is_active_status existing then (err resource_conflict, g) else (
          ok doc,
          record {
            cache = cache_put resource_id true now g.cache;
            memory = insert resource_id doc g.memory;
          },
        ))
        else (err bad_display_name, g))
    else (err bad_resource_id, g)

-- `revoke` of the document that it found.
unfoldable pub revoke_entry :
    Str
    → Str
    → ℕ
    → Option Resource
    → ResourceRegistry
    → Result RegistryError Resource × ResourceRegistry
revoke_entry resource_id revoked_by now none g = (err not_actively_registered, g)
revoke_entry resource_id revoked_by now (some r) g = elim r.status [
  | revoked ↦ (err not_actively_registered, g)
  | active ↦
      let doc : Resource = record r { status = revoked; revoked_by = some revoked_by } in
      (
        ok doc,
        record {
          cache = cache_put resource_id false now g.cache;
          memory = insert resource_id doc g.memory;
        },
      )
]

unfoldable pub revoke :
    Str → Str → ℕ → ResourceRegistry → Result RegistryError Resource × ResourceRegistry
revoke resource_id revoked_by now g =
    revoke_entry resource_id revoked_by now (lookup resource_id g.memory) g

-- `is_registered_and_active`: a cached answer that is younger than the limit, or that of the memory.
unfoldable pub is_registered_and_active : Str → ℕ → ResourceRegistry → Bool
is_registered_and_active resource_id now g =
    let stored = is_active_status (lookup resource_id g.memory) in
    elim (lookup resource_id g.cache) [
      | none ↦ stored
      | some (is_active, ts) ↦ if ltb now (ts + cache_ttl) then is_active else stored
    ]
