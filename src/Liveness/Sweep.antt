-- ===== src/Liveness/Sweep.antt =====
-- The sweep of gateway/liveness.py: it returns, and it checks each agent once that is due.
use agent_authorization_gate.Base.{
  ℕ, ◌+◌, ◌≡◌, ◌≢◌, refl, sym, ap, ◌∙◌, Bool, true, false, not, ◌&&◌, Bool-cases, some, none, [],
  ◌∷◌, ◌++◌, append_assoc, ok, inl, inr, Str, arith, All, length, filter, Option-cases, str_eq_refl,
  str_eq_iff, if◌then◌else◌,
}
use agent_authorization_gate.Base.Dict.{Dict, lookup, insert}
use agent_authorization_gate.Liveness.{
  LivenessRecord, LivenessManager, ChallengeResult, Counts, count, check_agent, sweep_records,
  sweep, record_result, truthy, values, needs_check, degrade, record_success, record_failure,
  append_history,
}

-- The manager keeps each record under its own agent id, and one record for each.
abbrev pub OwnIds : Dict LivenessRecord → Type 0
OwnIds d = All (λ e. e.0 ≡ e.1.agent_id) d

abbrev pub DistinctIds : Dict LivenessRecord → Type 0
DistinctIds [] = Unit
DistinctIds ((k, r) ∷ d) = All (λ e. k ≢ e.0) d × DistinctIds d

-- No key of the second dict is in the first.
abbrev JustChecked : Dict LivenessRecord → Dict LivenessRecord → Type 0
JustChecked pre d = All (λ e. lookup e.0 pre ≡ none) d

lookup-front :
    (k : Str) (v : LivenessRecord) (pre d : Dict LivenessRecord)
    → lookup k pre ≡ none
    → lookup k (pre ++ (k, v) ∷ d) ≡ some v
unfolding lookup
lookup-front k v [] d e = rw (str_eq_refl k) refl
lookup-front k v ((j, w) ∷ pre) d e = ground (arith, lookup-front k v pre d)

insert-front :
    (k : Str) (v w : LivenessRecord) (pre d : Dict LivenessRecord)
    → lookup k pre ≡ none
    → insert k w (pre ++ (k, v) ∷ d) ≡ pre ++ (k, w) ∷ d
unfolding lookup insert
insert-front k v w [] d e = rw (str_eq_refl k) refl
insert-front k v w ((j, u) ∷ pre) d e = ground (arith, insert-front k v w pre d)

lookup-none :
    (k j : Str) (v : LivenessRecord) (pre : Dict LivenessRecord)
    → k ≢ j
    → lookup j pre ≡ none
    → lookup j (pre ++ (k, v) ∷ []) ≡ none
unfolding lookup
lookup-none k j v [] n e = ground (arith, str_eq_iff k j, n)
lookup-none k j v ((i, w) ∷ pre) n e = ground (arith, lookup-none k j v pre n)

fresh_after :
    (k : Str) (v : LivenessRecord) (pre d : Dict LivenessRecord)
    → All (λ e. k ≢ e.0) d
    → JustChecked pre d
    → JustChecked (pre ++ (k, v) ∷ []) d
fresh_after k v pre [] n f = tt
fresh_after k v pre ((j, w) ∷ d) (n, ns) (f, fs) =
    (lookup-none k j v pre n f, fresh_after k v pre d ns fs)

abbrev pub answers : ChallengeResult → Bool
answers ChallengeResult.verified = true
answers (ChallengeResult.failed _) = false

-- One check more, by its result.
abbrev tallied : Bool → Counts → Counts
tallied true n = record { checked = n.checked + 1; passed = n.passed + 1; failures = n.failures }
tallied false n = record { checked = n.checked + 1; passed = n.passed; failures = n.failures + 1 }

-- A check counts as passed exactly if the agent answered.
count-tallied :
    (now : ℕ) (result : ChallengeResult) (r : LivenessRecord) (n : Counts)
    → count (record_result now result r).state n ≡ tallied (answers result) n
unfolding count record_success record_failure append_history degrade
count-tallied now ChallengeResult.verified r n = refl
count-tallied now (ChallengeResult.failed reason) r n = ground arith

all_fresh : (d : Dict LivenessRecord) → JustChecked [] d
unfolding lookup
all_fresh [] = tt
all_fresh (e ∷ d) = (refl, all_fresh d)

module _ (registered : Str → Bool) (challenge : Str → ChallengeResult) (now interval : ℕ) where
  -- The agent needs a check, and is registered.
  abbrev pub due : LivenessRecord → Bool
  due r = needs_check now interval r && registered r.agent_id

  abbrev pub passes : LivenessRecord → Bool
  passes r = answers (challenge r.agent_id)

  -- The records after the sweep: those that are due have one check more.
  abbrev pub refreshed : Dict LivenessRecord → Dict LivenessRecord
  refreshed [] = []
  refreshed ((k, r) ∷ d) =
      (k, if due r then record_result now (challenge r.agent_id) r else r) ∷ refreshed d

  abbrev tally : Counts → Dict LivenessRecord → Counts
  tally n [] = n
  tally n ((k, r) ∷ d) = tally (if due r then tallied (passes r) n else n) d

  checked :
      (m : LivenessManager) (r : LivenessRecord)
      → lookup r.agent_id m.records ≡ some r
      → needs_check now interval r ≡ true
      → let r' = record_result now (challenge r.agent_id) r in
        check_agent challenge now r.agent_id m
        ≡ ok (r', record m { records = insert r.agent_id r' m.records })
  unfolding check_agent needs_check
  checked m r e need = elim (Option-cases (truthy r.live_challenge_url)) [
    | inl no_url ↦ absurd (ground arith)
    | inr (u, url) ↦ rw (check_agent, e, url) refl
  ]

  swept :
      (d pre : Dict LivenessRecord) (n : Counts) (m : LivenessManager)
      → OwnIds d
      → DistinctIds d
      → JustChecked pre d
      → sweep_records registered challenge now
          (filter (needs_check now interval) (values d))
          n
          (record m { records = pre ++ d })
        ≡ ok (tally n d, record m { records = pre ++ refreshed d })
  unfolding sweep_records
  swept [] pre n m o i f = refl
  swept ((k, r) ∷ d) pre n m (own, o) (apart, i) (new, f) =
      let moved : (v : LivenessRecord) (n' : Counts)
          → sweep_records registered challenge now (filter (needs_check now interval) (values d)) n'
              (record m { records = pre ++ (k, v) ∷ d })
            ≡ ok (tally n' d, record m { records = pre ++ (k, v) ∷ refreshed d }) =
        λ v n'.
          ap
            (λ l.
              sweep_records registered challenge now (filter (needs_check now interval) (values d))
                n' (record m { records = l }))
            (sym (append_assoc pre ((k, v) ∷ []) d))
          ∙ swept d (pre ++ (k, v) ∷ []) n' m o i (fresh_after k v pre d apart f)
          ∙ ap (λ l. ok (tally n' d, record m { records = l }))
              (append_assoc pre ((k, v) ∷ []) (refreshed d)) in
      elim (Bool-cases (needs_check now interval r)) [
        | inr fine ↦ rw fine (moved r n)
        | inl need ↦ elim (Bool-cases (registered r.agent_id)) [
          | inr unknown ↦ rw (need, sweep_records, unknown) (moved r n)
          | inl known ↦
              let all = record m { records = pre ++ (k, r) ∷ d } in
              let r' = record_result now (challenge r.agent_id) r in
              let found : lookup r.agent_id all.records ≡ some r =
                ap (λ j. lookup j all.records) (sym own) ∙ lookup-front k r pre d new in
              let check = checked all r found need in
              let put : insert r.agent_id r' all.records ≡ pre ++ (k, r') ∷ d =
                ap (λ j. insert j r' all.records) (sym own) ∙ insert-front k r r' pre d new in
              let one = count-tallied now (challenge r.agent_id) r n in
              rw (need, sweep_records, known, check)
                (rw (one, put) (moved r' (tallied (passes r) n)))
        ]
      ]

  -- The tally counts the records that are due, and of them those that pass and those that do not.
  tally-counts :
      (d : Dict LivenessRecord) (n : Counts)
      → ((tally n d).checked ≡ n.checked + length (filter due (values d)))
        × ((tally n d).passed ≡ n.passed + length (filter passes (filter due (values d))))
        × ((tally n d).failures
            ≡ n.failures + length (filter (λ r. not (passes r)) (filter due (values d))))
  tally-counts [] n = (omega arith, omega arith, omega arith)
  tally-counts ((k, r) ∷ d) n = elim (Bool-cases (due r)) [
    | inr fine ↦
        let step : tally n ((k, r) ∷ d) ≡ tally n d = rw (tally, fine) refl in
        rw (step, fine) (tally-counts d n)
    | inl is_due ↦ elim (Bool-cases (passes r)) [
      | inl pass ↦
          let (c, p, x) = tally-counts d (tallied true n) in
          let step : tally n ((k, r) ∷ d) ≡ tally (tallied true n) d =
            rw (tally, is_due, pass) refl in
          rw (step, is_due, pass) (omega arith, omega arith, omega arith)
      | inr fail ↦
          let (c, p, x) = tally-counts d (tallied false n) in
          let step : tally n ((k, r) ∷ d) ≡ tally (tallied false n) d =
            rw (tally, is_due, fail) refl in
          rw (step, is_due, fail) (omega arith, omega arith, omega arith)
    ]
  ]

-- If the manager keeps each record once, under its own agent id, `sweep` returns. It checks each agent
-- that needs a check and is registered, once, and counts it as passed if it answers and as failed if
-- not. Then the manager has the same records in the same order, those that were checked with the
-- result of their check and the others as they were.
pub sweep_returns :
    (registered : Str → Bool) (challenge : Str → ChallengeResult) (now : ℕ) (m : LivenessManager)
    → OwnIds m.records
    → DistinctIds m.records
    → let checks =
        filter (due registered challenge now m.attestation_interval) (values m.records) in
      (n : Counts) × (sweep registered challenge now m
        ≡ ok (
          n,
          record m {
            records = refreshed registered challenge now m.attestation_interval m.records;
          },
        ))
      × (n.checked ≡ length checks)
      × (n.passed ≡ length (filter (passes registered challenge now m.attestation_interval) checks))
      × (n.failures
          ≡ length
              (filter (λ r. not (passes registered challenge now m.attestation_interval r)) checks))
unfolding sweep
sweep_returns registered challenge now m o i =
    let none_yet : Counts = record { checked = 0; passed = 0; failures = 0 } in
    let interval = m.attestation_interval in
    let (c, p, x) = tally-counts registered challenge now interval m.records none_yet in
    (
      tally registered challenge now interval none_yet m.records,
      swept registered challenge now interval m.records [] none_yet m o i (all_fresh m.records),
      omega arith,
      omega arith,
      omega arith,
    )
