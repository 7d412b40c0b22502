-- ===== src/Artifacts.antt =====
-- gateway/artifact_log.py and the cycle of gateway/anchor_scheduler.py. The documents of a log are
-- `_memory`, or the Firestore collection that other instances of the log share; they have one
-- writer, so that `set` under a new number appends. `anchor_root` is an argument, as is the clock.
pub mod Dense
pub mod Batches
pub mod Passes
pub mod Tests
use agent_authorization_gate.Base.{
  ℕ, suc, ◌+◌, ◌-◌, Bool, true, false, ◌&&◌, ◌||◌, Option, none, some, List, [], ◌∷◌, ◌++◌, map,
  Result, ok, err, Str, Bytes, codes, length, take, filter, ltb, leb, ◌==◌, remove_prefix,
  if◌then◌else◌,
}
use agent_authorization_gate.Merkle.{MerkleError, compute_unified_root}

pub record ArtifactEntry : Type 0 where
  pub seq : ℕ
  pub artifact_type : Str
  pub artifact_id : Str
  pub artifact_hash : Str
  pub agent_kid : Str
  pub tenant : Str
  pub created_at : Str

-- An instance of `ArtifactLog`, without its documents.
pub record ArtifactLog : Type 0 where
  pub tenant : Str
  pub seq : ℕ

-- The arguments of `append`, and the time.
pub record Artifact : Type 0 where
  pub artifact_type : Str
  pub artifact_id : Str
  pub artifact_hash : Str
  pub agent_kid : Str
  pub created_at : Str

unfoldable pub append :
    Artifact → ArtifactLog → List ArtifactEntry → ArtifactEntry × ArtifactLog × List ArtifactEntry
append a log docs =
    let entry : ArtifactEntry = record {
      seq = suc log.seq;
      artifact_type = a.artifact_type;
      artifact_id = a.artifact_id;
      artifact_hash = a.artifact_hash;
      agent_kid = a.agent_kid;
      tenant = log.tenant;
      created_at = a.created_at;
    } in
    (entry, record log { seq = suc log.seq }, docs ++ entry ∷ [])

-- `get_entries_since(after_seq, limit)`
unfoldable pub get_entries_since : ℕ → ℕ → List ArtifactEntry → List ArtifactEntry
get_entries_since after_seq limit docs = take limit (filter (λ e. ltb after_seq e.seq) docs)

-- `get_all_hashes_since`, with the limit of 500 that it leaves to `get_entries_since`.
unfoldable pub get_all_hashes_since : ℕ → List ArtifactEntry → List Str
get_all_hashes_since after_seq docs =
    map (λ (e : ArtifactEntry). e.artifact_hash) (get_entries_since after_seq 500 docs)

unfoldable pub get_entry : ℕ → List ArtifactEntry → Option ArtifactEntry
get_entry seq [] = none
get_entry seq (e ∷ docs) = if e.seq == seq then some e else get_entry seq docs

-- `last_anchor_at` and `last_anchor_seq` of `anchor_loop`.
pub record Anchored : Type 0 where
  pub last_anchor_at : Option ℕ
  pub last_anchor_seq : ℕ

-- What is submitted and recorded: the root, `artifact_count` and `artifact_seq_range`.
pub record AnchorRecord : Type 0 where
  pub root : Str
  pub artifact_count : ℕ
  pub range_first : ℕ
  pub range_last : ℕ

-- `should_anchor and artifacts_since > 0`
unfoldable pub is_due : ℕ → ℕ → ℕ → ArtifactLog → Anchored → Bool
is_due threshold time_threshold now log s =
    let since = log.seq - s.last_anchor_seq in
    let late : Bool = elim s.last_anchor_at [
      | none ↦ true
      | some at ↦ leb time_threshold (now - at)
    ] in
    (leb threshold since || late) && ltb s.last_anchor_seq log.seq

-- What follows the computation of the root. `submits` is whether `anchor_root` returns; a pass whose
-- call raises leaves the loop's variables as they are.
unfoldable pub submit :
    Bool → ℕ → ℕ → ℕ → Anchored → Result MerkleError Str → Option AnchorRecord × Anchored
submit submits now current_seq size s (err _) = (none, s)
submit submits now current_seq size s (ok root) =
    if submits
    then (
      some (record {
        root = root;
        artifact_count = size;
        range_first = s.last_anchor_seq + 1;
        range_last = current_seq;
      }),
      record { last_anchor_at = some now; last_anchor_seq = current_seq },
    )
    else (none, s)

-- `[h.removeprefix("sha256:") for h in hashes]`
abbrev pub hex_hashes : List Str → List Str
hex_hashes hashes = map (remove_prefix (codes "sha256:")) hashes

module _ (sha256 : Bytes → Bytes) where
  unfoldable pub anchor_hashes : Bool → ℕ → ℕ → Anchored → List Str → Option AnchorRecord × Anchored
  anchor_hashes submits now current_seq s [] = (none, s)
  anchor_hashes submits now current_seq s (h ∷ hashes) =
      submit submits now current_seq (length (h ∷ hashes)) s
        (compute_unified_root sha256 (hex_hashes (h ∷ hashes)))

module _ (sha256 : Bytes → Bytes) (threshold time_threshold : ℕ) where
  -- One pass of the loop of `anchor_loop`.
  unfoldable pub anchor_cycle :
      Bool → ℕ → ArtifactLog → List ArtifactEntry → Anchored → Option AnchorRecord × Anchored
  anchor_cycle submits now log docs s =
      if is_due threshold time_threshold now log s
      then anchor_hashes sha256 submits now log.seq s (get_all_hashes_since s.last_anchor_seq docs)
      else (none, s)
