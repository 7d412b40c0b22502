-- ===== src/Artifacts/Passes.antt =====
-- The loop of gateway/anchor_scheduler.py over all its passes.
use agent_authorization_gate.Base.{
  ℕ, ◌≤◌, ◌≡◌, refl, ap, ◌∙◌, true, false, Bool, Bool-cases, inl, inr, Option, none, some, List, [],
  ◌∷◌, Result, ok, err, Str, Bytes, arith, length, ◌⊎◌,
}
use agent_authorization_gate.Merkle.{compute_unified_root, MerkleError}
use agent_authorization_gate.Artifacts.{
  ArtifactEntry, ArtifactLog, Anchored, AnchorRecord, get_all_hashes_since, hex_hashes, is_due,
  submit, anchor_hashes, anchor_cycle,
}
use agent_authorization_gate.Artifacts.Batches.{due_pending}

-- The records of passes of one loop, whose instance of the log never changes: each pass sees any
-- documents at any time.
abbrev pub Pass : Type 0
Pass = Bool × ℕ × List ArtifactEntry

-- The result of a pass that recorded an anchor up to the number of the instance.
abbrev Advanced : ArtifactLog → Option AnchorRecord × Anchored → Type 0
Advanced log p =
    (r : AnchorRecord) × (s : Anchored) × (p ≡ (some r, s)) × (s.last_anchor_seq ≡ log.seq)

submit_cases :
    (log : ArtifactLog) (submits : Bool) (now size : ℕ) (s : Anchored) (m : Result MerkleError Str)
    → (submit submits now log.seq size s m ≡ (none, s))
      ⊎ Advanced log (submit submits now log.seq size s m)
unfolding submit
submit_cases log submits now size s (err e) = inl refl
submit_cases log true now size s (ok root) = inr (_, _, refl, refl)
submit_cases log false now size s (ok root) = inl refl

hashes_cases :
    (sha256 : Bytes → Bytes) (log : ArtifactLog) (submits : Bool) (now : ℕ) (s : Anchored)
    (hashes : List Str)
    → (anchor_hashes sha256 submits now log.seq s hashes ≡ (none, s))
      ⊎ Advanced log (anchor_hashes sha256 submits now log.seq s hashes)
unfolding anchor_hashes
hashes_cases sha256 log submits now s [] = inl refl
hashes_cases sha256 log submits now s (h ∷ hashes) =
    submit_cases log submits now (length (h ∷ hashes)) s
      (compute_unified_root sha256 (hex_hashes (h ∷ hashes)))

module _ (sha256 : Bytes → Bytes) (threshold time_threshold : ℕ) (log : ArtifactLog) where
  abbrev optional_record : Option AnchorRecord → List AnchorRecord → List AnchorRecord
  optional_record none rest = rest
  optional_record (some r) rest = r ∷ rest

  abbrev pub anchor_runs : List Pass → Anchored → List AnchorRecord
  anchor_runs [] s = []
  anchor_runs ((submits, now, docs) ∷ passes) s =
      let (r, s') = anchor_cycle sha256 threshold time_threshold submits now log docs s in
      optional_record r (anchor_runs passes s')

  -- A pass changes nothing, or records an anchor and advances to the number of the instance.
  pass_cases :
      (submits : Bool) (now : ℕ) (docs : List ArtifactEntry) (s : Anchored)
      → (anchor_cycle sha256 threshold time_threshold submits now log docs s ≡ (none, s))
        ⊎ Advanced log (anchor_cycle sha256 threshold time_threshold submits now log docs s)
  unfolding anchor_cycle
  pass_cases submits now docs s = elim (Bool-cases (is_due threshold time_threshold now log s)) [
    | inr early ↦ rw early (inl refl)
    | inl due ↦
        rw due (hashes_cases sha256 log submits now s (get_all_hashes_since s.last_anchor_seq docs))
  ]

  idle_pass :
      (submits : Bool) (now : ℕ) (docs : List ArtifactEntry) (s : Anchored)
      → log.seq ≤ s.last_anchor_seq
      → anchor_cycle sha256 threshold time_threshold submits now log docs s ≡ (none, s)
  unfolding anchor_cycle is_due
  idle_pass submits now docs s le = elim (Bool-cases (is_due threshold time_threshold now log s)) [
    | inr early ↦ rw (early, anchor_cycle) refl
    | inl due ↦ absurd (omega (arith, due_pending threshold time_threshold now log s due))
  ]

  -- Once the number of the instance is anchored, no pass is due.
  nothing_due :
      (passes : List Pass) (s : Anchored) → log.seq ≤ s.last_anchor_seq → anchor_runs passes s ≡ []
  nothing_due [] s le = refl
  nothing_due ((submits, now, docs) ∷ passes) s le =
      ap (λ (p : Option AnchorRecord × Anchored). optional_record p.0 (anchor_runs passes p.1))
        (idle_pass submits now docs s le)
      ∙ nothing_due passes s le

  -- Whatever is appended to the documents in the meantime, all passes of a loop anchor at most once.
  pub at_most_one_anchor : (passes : List Pass) (s : Anchored) → length (anchor_runs passes s) ≤ 1
  at_most_one_anchor [] s = omega arith
  at_most_one_anchor ((submits, now, docs) ∷ passes) s = elim (pass_cases submits now docs s) [
    | inl same ↦ rw same (at_most_one_anchor passes s)
    | inr (r, s', e, at) ↦ rw e (rw (nothing_due passes s' (omega arith)) (omega arith))
  ]
