-- ===== src/Liveness.antt =====
-- gateway/liveness.py: the liveness record of an agent and the manager of all records. The clock is
-- read once for each call, as a whole number of one unit; the answer of an agent's callback and the
-- agent registry's `get` are arguments.
pub mod States
pub mod History
pub mod Sweep
pub mod Tests
use agent_authorization_gate.Base.{
  ℕ, suc, ◌+◌, ◌-◌, Bool, true, false, not, ◌&&◌, Option, none, some, List, [], ◌∷◌, ◌++◌, Result,
  ok, err, ◌>>=◌, Str, length, drop, filter, ltb, leb, ◌==◌, if◌then◌else◌, str_eq,
}
use agent_authorization_gate.Base.Dict.{Dict, lookup, insert, erase}

-- `MAX_HISTORY_ENTRIES`
abbrev pub max_history_entries : ℕ
max_history_entries = 20

pub data LivenessState : Type 0 where
  live warning stale suspended unknown : LivenessState

pub data Outcome : Type 0 where
  success failure : Outcome

-- An entry of the history; the `reason` stands there only when it is not empty.
pub record Entry : Type 0 where
  pub timestamp : ℕ
  pub outcome : Outcome
  pub state_after : LivenessState
  pub reason : Option Str

pub record LivenessRecord : Type 0 where
  pub agent_id : Str
  pub state : LivenessState
  pub consecutive_failures : ℕ
  pub total_checks : ℕ
  pub total_successes : ℕ
  pub total_failures : ℕ
  pub liveness_verified_at : Option ℕ
  pub last_check_at : Option ℕ
  pub last_failure_reason : Option Str
  pub live_challenge_url : Option Str
  pub history : List Entry

-- `LivenessRecord(agent_id=…, live_challenge_url=…)`
abbrev pub new_record : Str → Option Str → LivenessRecord
new_record agent_id url = record {
  agent_id = agent_id;
  state = unknown;
  consecutive_failures = 0;
  total_checks = 0;
  total_successes = 0;
  total_failures = 0;
  liveness_verified_at = none;
  last_check_at = none;
  last_failure_reason = none;
  live_challenge_url = url;
  history = [];
}

-- `if text:` for a text that may be None.
unfoldable pub truthy : Option Str → Option Str
truthy none = none
truthy (some []) = none
truthy (some (c ∷ s)) = some (c ∷ s)

-- `xs[-n:]`
unfoldable pub last_entries : ℕ → List Entry → List Entry
last_entries n xs = drop (length xs - n) xs

-- `_append_history`
unfoldable pub append_history : ℕ → Outcome → Option Str → LivenessRecord → LivenessRecord
append_history now outcome reason r =
    let entry : Entry = record {
      timestamp = now;
      outcome = outcome;
      state_after = r.state;
      reason = truthy reason;
    } in
    let entries = r.history ++ entry ∷ [] in
    let kept =
      if ltb max_history_entries (length entries)
      then last_entries max_history_entries entries
      else entries in
    record r { history = kept }

unfoldable pub record_success : ℕ → LivenessRecord → LivenessRecord
record_success now r = append_history now success none (record r {
  consecutive_failures = 0;
  total_checks = r.total_checks + 1;
  total_successes = r.total_successes + 1;
  liveness_verified_at = some now;
  last_check_at = some now;
  last_failure_reason = none;
  state = live;
})

-- The state that `record_failure` sets after so many failures.
unfoldable pub degrade : ℕ → LivenessState → LivenessState
degrade n s = if leb 3 n then suspended else if n == 2 then stale else if n == 1 then warning else s

unfoldable pub record_failure : ℕ → Str → LivenessRecord → LivenessRecord
record_failure now reason r = append_history now failure (some reason) (record r {
  consecutive_failures = r.consecutive_failures + 1;
  total_checks = r.total_checks + 1;
  total_failures = r.total_failures + 1;
  last_check_at = some now;
  last_failure_reason = some reason;
  state = degrade (r.consecutive_failures + 1) r.state;
})

-- `is_stale(interval)`
unfoldable pub is_stale : ℕ → ℕ → LivenessRecord → Bool
is_stale now interval r = elim r.liveness_verified_at [
  | none ↦ true
  | some at ↦ ltb (at + interval) now
]

unfoldable pub should_deny_authorization : LivenessRecord → Bool
should_deny_authorization r = elim r.state [ stale ↦ true | suspended ↦ true | _ ↦ false ]

pub record LivenessManager : Type 0 where
  pub records : Dict LivenessRecord
  pub attestation_interval : ℕ

-- `if live_challenge_url and record.live_challenge_url != live_challenge_url`
unfoldable pub set_url : Option Str → LivenessRecord → LivenessRecord
set_url url r = elim (truthy url) [ none ↦ r | some u ↦ record r { live_challenge_url = some u } ]

unfoldable pub get_or_create : Str → Option Str → LivenessManager → LivenessRecord × LivenessManager
get_or_create agent_id url m =
    let r =
      set_url url
        (elim (lookup agent_id m.records) [ none ↦ new_record agent_id url | some r ↦ r ]) in
    (r, record m { records = insert agent_id r m.records })

abbrev pub remove : Str → LivenessManager → LivenessManager
remove agent_id m = record m { records = erase agent_id m.records }

abbrev pub values : Dict LivenessRecord → List LivenessRecord
values [] = []
values ((_, r) ∷ d) = r ∷ values d

-- `r.live_challenge_url and r.is_stale(interval)`
unfoldable pub needs_check : ℕ → ℕ → LivenessRecord → Bool
needs_check now interval r = elim (truthy r.live_challenge_url) [
  | none ↦ false
  | some _ ↦ is_stale now interval r
]

abbrev pub agents_needing_check : ℕ → LivenessManager → List LivenessRecord
agents_needing_check now m = filter (needs_check now m.attestation_interval) (values m.records)

-- What `_run_liveness_challenge` returns: the signature is verified, or the reason of the failure.
pub data ChallengeResult : Type 0 where
  verified : ChallengeResult
  failed : Str → ChallengeResult

abbrev pub record_result : ℕ → ChallengeResult → LivenessRecord → LivenessRecord
record_result now verified r = record_success now r
record_result now (failed reason) r = record_failure now reason r

-- The ValueError of an agent that has no record.
pub data NoRecord : Type 0 where
  no_record : NoRecord

module _ (challenge : Str → ChallengeResult) where
  unfoldable pub check_agent :
      ℕ → Str → LivenessManager → Result NoRecord (LivenessRecord × LivenessManager)
  check_agent now agent_id m = elim (lookup agent_id m.records) [
    | none ↦ err no_record
    | some r ↦ elim (truthy r.live_challenge_url) [
      | none ↦ ok (r, m)
      | some _ ↦
          let r' = record_result now (challenge agent_id) r in
          ok (r', record m { records = insert agent_id r' m.records })
    ]
  ]

-- The counts in the summary of a sweep; `failures` is its `failed`.
pub record Counts : Type 0 where
  pub checked : ℕ
  pub passed : ℕ
  pub failures : ℕ

abbrev is_live : LivenessState → Bool
is_live live = true
is_live _ = false

-- `checked += 1`, then `passed += 1` or `failed += 1`
unfoldable pub count : LivenessState → Counts → Counts
count s n =
    if is_live s
    then record { checked = n.checked + 1; passed = n.passed + 1; failures = n.failures }
    else record { checked = n.checked + 1; passed = n.passed; failures = n.failures + 1 }

module _ (registered : Str → Bool) (challenge : Str → ChallengeResult) (now : ℕ) where
  -- The loop of `sweep` over the records that need a check; `registered` is `registry.get(id) is not
  -- None`.
  unfoldable pub sweep_records :
      List LivenessRecord → Counts → LivenessManager → Result NoRecord (Counts × LivenessManager)
  sweep_records [] n m = ok (n, m)
  sweep_records (r ∷ rs) n m = elim (registered r.agent_id) [
    | false ↦ sweep_records rs n m
    | true ↦ (do
      (r', m') ← check_agent challenge now r.agent_id m
      sweep_records rs (count r'.state n) m')
  ]

  unfoldable pub sweep : LivenessManager → Result NoRecord (Counts × LivenessManager)
  sweep m =
      sweep_records (agents_needing_check now m) (record { checked = 0; passed = 0; failures = 0 })
        m
