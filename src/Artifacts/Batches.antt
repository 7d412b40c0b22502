-- ===== src/Artifacts/Batches.antt =====
-- The batches that gateway/anchor_scheduler.py anchors.
use agent_authorization_gate.Base.{
  ℕ, suc, ◌+◌, ◌-◌, ◌<◌, ◌≡◌, refl, sym, ap, ◌∙◌, true, some, List, [], ◌∷◌, map, ok, Str, Bytes,
  arith, length, take, drop, length-take, length-drop, length-map,
}
use agent_authorization_gate.Merkle.{compute_unified_root}
use agent_authorization_gate.Artifacts.{
  ArtifactEntry, ArtifactLog, Artifact, Anchored, get_all_hashes_since, hex_hashes, is_due, submit,
  anchor_hashes, anchor_cycle,
}
use agent_authorization_gate.Artifacts.Dense.{numbered, entries_since_drop, length-numbered}
use Prim.Native.Nat.{min}

-- The hashes of the first 500 artifacts behind the last anchored one.
abbrev pub batch : ℕ → Str → List Artifact → List Str
batch last tenant artifacts =
    map (λ (e : ArtifactEntry). e.artifact_hash)
      (take 500 (drop last (numbered 0 tenant artifacts)))

hashes-batch :
    (last : ℕ) (tenant : Str) (artifacts : List Artifact)
    → get_all_hashes_since last (numbered 0 tenant artifacts) ≡ batch last tenant artifacts
unfolding get_all_hashes_since
hashes-batch last tenant artifacts =
    let same : last - 0 ≡ last = omega arith in
    ap (map (λ (e : ArtifactEntry). e.artifact_hash)) (
      entries_since_drop last 500 0 tenant artifacts (omega arith)
      ∙ ap (λ n. take 500 (drop n (numbered 0 tenant artifacts))) same)

length-batch :
    (last : ℕ) (tenant : Str) (artifacts : List Artifact)
    → length (batch last tenant artifacts) ≡ min 500 (length artifacts - last)
length-batch last tenant artifacts =
    let pending = drop last (numbered 0 tenant artifacts) in
    let mapped = length-map (λ (e : ArtifactEntry). e.artifact_hash) (take 500 pending) in
    let cut : length (take 500 pending) ≡ min 500 (length pending) = length-take 500 pending in
    let dropped : length pending ≡ length (numbered 0 tenant artifacts) - last =
      length-drop last (numbered 0 tenant artifacts) in
    let size = length-numbered 0 tenant artifacts in omega arith

-- What a pass that submits a root records, and how it advances.
submitted :
    (sha256 : Bytes → Bytes) (now current size : ℕ) (s : Anchored) (hashes : List Str) (root : Str)
    → length hashes ≡ suc size
    → compute_unified_root sha256 (hex_hashes hashes) ≡ ok root
    → anchor_hashes sha256 true now current s hashes ≡ (
      some (record {
        root = root;
        artifact_count = suc size;
        range_first = s.last_anchor_seq + 1;
        range_last = current;
      }),
      record { last_anchor_at = some now; last_anchor_seq = current },
    )
unfolding anchor_hashes submit
submitted sha256 now current size s [] root l e = absurd (omega arith)
submitted sha256 now current size s (h ∷ hashes) root l e = rw (sym l) (rw e refl)

pub due_pending :
    (threshold time_threshold now : ℕ) (log : ArtifactLog) (s : Anchored)
    → is_due threshold time_threshold now log s ≡ true
    → s.last_anchor_seq < log.seq
unfolding is_due
due_pending threshold time_threshold now log s h = ground arith

module _ (sha256 : Bytes → Bytes) (threshold time_threshold now : ℕ) where
  -- A pass that is due, on a dense log that its instance knows in full, whose hashes have a root and
  -- whose submission succeeds, records the root of the first 500 artifacts behind the last anchored
  -- one and their number, claims the range up to the last artifact, and goes on from there.
  pub pass_anchors_batch :
      (tenant : Str) (artifacts : List Artifact) (s : Anchored) (root : Str)
      → is_due threshold time_threshold now (record { tenant = tenant; seq = length artifacts }) s
        ≡ true
      → compute_unified_root sha256 (hex_hashes (batch s.last_anchor_seq tenant artifacts))
        ≡ ok root
      → anchor_cycle sha256 threshold time_threshold true now
          (record { tenant = tenant; seq = length artifacts })
          (numbered 0 tenant artifacts)
          s
        ≡ (
          some (record {
            root = root;
            artifact_count = min 500 (length artifacts - s.last_anchor_seq);
            range_first = s.last_anchor_seq + 1;
            range_last = length artifacts;
          }),
          record { last_anchor_at = some now; last_anchor_seq = length artifacts },
        )
  unfolding anchor_cycle
  pass_anchors_batch tenant artifacts s root due r =
      let size = min 500 (length artifacts - s.last_anchor_seq) in
      let pending =
        due_pending threshold time_threshold now
          (record { tenant = tenant; seq = length artifacts }) s due in
      let some_size : suc (size - 1) ≡ size = omega arith in
      let hashes = hashes-batch s.last_anchor_seq tenant artifacts in
      let count = length-batch s.last_anchor_seq tenant artifacts ∙ sym some_size in
      let run =
        submitted sha256 now (length artifacts) (size - 1) s
          (batch s.last_anchor_seq tenant artifacts) root count r in
      rw due (rw hashes (rw some_size at run))
