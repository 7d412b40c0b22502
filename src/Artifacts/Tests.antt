-- ===== src/Artifacts/Tests.antt =====
-- Instances of the theorems on gateway/artifact_log.py and gateway/anchor_scheduler.py.
use agent_authorization_gate.Base.{
  ℕ, ◌+◌, ◌-◌, ◌≤◌, ◌≡◌, refl, true, none, some, List, [], ◌∷◌, Str, codes, ok, length, get_elem?,
  from_hex, remove_prefix,
}
use agent_authorization_gate.Fixtures.{toy_hash}
use agent_authorization_gate.Merkle.{
  compute_unified_root, map_result, unified_leaf_hash, bytes_of_hex, build_tree, top,
}
use agent_authorization_gate.Artifacts.{
  Artifact, ArtifactLog, Anchored, get_entry, is_due, hex_hashes, anchor_cycle,
}
use agent_authorization_gate.Artifacts.Dense.{numbered, append_all, appended_found}
use agent_authorization_gate.Artifacts.Batches.{batch, pass_anchors_batch}
use agent_authorization_gate.Artifacts.Passes.{Pass, anchor_runs, at_most_one_anchor}
use Prim.Native.Nat.{min}

abbrev artifact : Str → Artifact
artifact hash = record {
  artifact_type = codes "receipt";
  artifact_id = hash;
  artifact_hash = hash;
  agent_kid = codes "gw";
  created_at = codes "now";
}

abbrev artifacts : List Artifact
artifacts = artifact (codes "sha256:00ff") ∷ artifact (codes "sha256:a1") ∷ []

abbrev start : Anchored
start = record { last_anchor_at = none; last_anchor_seq = 0 }

abbrev instance_log : ℕ → ArtifactLog
instance_log n = record { tenant = codes "t"; seq = n }

appended_found_example :
    (get_entry 2 (append_all artifacts (instance_log 0) []).1
      ≡ get_elem? (numbered 0 (codes "t") artifacts) 1)
    × (get_entry 0 (append_all artifacts (instance_log 0) []).1 ≡ none)
    × ((append_all artifacts (instance_log 0) []).0.seq ≡ length artifacts)
appended_found_example = appended_found (codes "t") artifacts 1

due : is_due 10 3600 5 (instance_log 2) start ≡ true
unfolding is_due
due = refl

abbrev Rooted : Type 0
Rooted =
    (root : Str) × (compute_unified_root toy_hash (hex_hashes (batch 0 (codes "t") artifacts))
      ≡ ok root)

rooted : Rooted
unfolding compute_unified_root map_result unified_leaf_hash bytes_of_hex from_hex remove_prefix
    build_tree top
rooted = (_, refl)

pass_anchors_batch_example :
    anchor_cycle toy_hash 10 3600 true 5 (instance_log 2) (numbered 0 (codes "t") artifacts) start
    ≡ (
      some (record {
        root = rooted.0;
        artifact_count = min 500 (2 - 0);
        range_first = 0 + 1;
        range_last = 2;
      }),
      record { last_anchor_at = some 5; last_anchor_seq = 2 },
    )
pass_anchors_batch_example =
    pass_anchors_batch toy_hash 10 3600 5 (codes "t") artifacts start rooted.0 due rooted.1

-- Two passes, between which an artifact is appended.
abbrev passes : List Pass
passes =
    (true, 5, numbered 0 (codes "t") artifacts)
    ∷ (true, 9000, numbered 0 (codes "t") (artifact (codes "sha256:b2") ∷ artifacts))
    ∷ []

at_most_one_anchor_example : length (anchor_runs toy_hash 10 3600 (instance_log 2) passes start) ≤ 1
at_most_one_anchor_example = at_most_one_anchor toy_hash 10 3600 (instance_log 2) passes start
