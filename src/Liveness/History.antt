-- ===== src/Liveness/History.antt =====
-- The bounded history of gateway/liveness.py.
use agent_authorization_gate.Base.{
  ℕ, ◌+◌, ◌-◌, ◌≡◌, refl, sym, ap, ◌∙◌, Option, none, some, List, [], ◌∷◌, ◌++◌, Str, arith, length,
  drop, length-append, length-drop, ltb, Bool-cases, inl, inr, drop-append, if◌then◌else◌,
  drop-drop, take, take-append-drop, subst,
}
use Prim.Native.Nat.{min}
use agent_authorization_gate.Liveness.{
  Entry, LivenessRecord, ChallengeResult, verified, failed, success, failure, last_entries,
  append_history, record_success, record_failure, max_history_entries, truthy,
}
use agent_authorization_gate.Liveness.States.{Check, after}

-- The cut keeps the last entries, also when there is nothing to cut.
kept_entries :
    (xs : List Entry)
    → (if ltb max_history_entries (length xs) then last_entries max_history_entries xs else xs)
      ≡ last_entries max_history_entries xs
unfolding last_entries
kept_entries xs = elim (Bool-cases (ltb 20 (length xs))) [
  | inl long ↦ rw long refl
  | inr short ↦ let none_cut : length xs - 20 ≡ 0 = ground arith in rw short (rw none_cut refl)
]

-- An entry after the last 20 entries, and after all of them.
last-append :
    (xs : List Entry) (e : Entry)
    → last_entries 20 (last_entries 20 xs ++ e ∷ []) ≡ last_entries 20 (xs ++ e ∷ [])
unfolding last_entries
last-append xs e =
    let k = length xs - 20 in
    let size : length (drop k xs) ≡ length xs - k = length-drop k xs in
    let more : length (xs ++ e ∷ []) ≡ length xs + 1 = length-append xs (e ∷ []) in
    let rest : length (drop k xs ++ e ∷ []) ≡ length (drop k xs) + 1 =
      length-append (drop k xs) (e ∷ []) in
    let same : k + (length (drop k xs) + 1 - 20) ≡ length xs + 1 - 20 = omega arith in
    rw rest (
      rw more (
        drop-append (length (drop k xs) + 1 - 20) (drop k xs) (e ∷ []) (omega arith)
        ∙ ap (λ l. l ++ e ∷ [])
            (drop-drop (length (drop k xs) + 1 - 20) k xs ∙ ap (λ n. drop n xs) same)
        ∙ sym (drop-append (length xs + 1 - 20) xs (e ∷ []) (omega arith))))

-- What a check leaves in the history when nothing is cut off.
abbrev entry : ℕ → ChallengeResult → LivenessRecord → Entry
entry now verified r = record {
  timestamp = now;
  outcome = success;
  state_after = r.state;
  reason = none;
}
entry now (failed reason) r = record {
  timestamp = now;
  outcome = failure;
  state_after = r.state;
  reason = truthy (some reason);
}

log_success :
    (now : ℕ) (r : LivenessRecord)
    → (record_success now r).history
      ≡ last_entries 20 (r.history ++ entry now verified (record_success now r) ∷ [])
unfolding record_success append_history truthy
log_success now r = kept_entries (r.history ++ entry now verified (record_success now r) ∷ [])

log_failure :
    (now : ℕ) (reason : Str) (r : LivenessRecord)
    → (record_failure now reason r).history
      ≡ last_entries 20 (r.history ++ entry now (failed reason) (record_failure now reason r) ∷ [])
unfolding record_failure append_history
log_failure now reason r =
    kept_entries (r.history ++ entry now (failed reason) (record_failure now reason r) ∷ [])

-- Every entry since the registration, the oldest first.
abbrev pub full_log : Str → Option Str → List Check → List Entry
full_log agent_id url [] = []
full_log agent_id url ((now, result) ∷ checks) =
    full_log agent_id url checks
    ++ entry now result (after agent_id url ((now, result) ∷ checks)) ∷ []

history_last :
    (agent_id : Str) (url : Option Str) (checks : List Check)
    → (after agent_id url checks).history
      ≡ last_entries max_history_entries (full_log agent_id url checks)
history_last agent_id url [] = unfold last_entries in refl
history_last agent_id url ((now, verified) ∷ checks) =
    let r = after agent_id url checks in
    log_success now r
    ∙ ap (λ l. last_entries 20 (l ++ entry now verified (record_success now r) ∷ []))
        (history_last agent_id url checks)
    ∙ last-append (full_log agent_id url checks) (entry now verified (record_success now r))
history_last agent_id url ((now, failed reason) ∷ checks) =
    let r = after agent_id url checks in
    let e = entry now (failed reason) (record_failure now reason r) in
    log_failure now reason r
    ∙ ap (λ l. last_entries 20 (l ++ e ∷ [])) (history_last agent_id url checks)
    ∙ last-append (full_log agent_id url checks) e

-- The full history ends with the kept one, which has 20 entries, or all if there are no more.
abbrev pub KeepsLast : List Entry → List Entry → Type 0
KeepsLast kept log =
    (older : List Entry) × (log ≡ older ++ kept) × (length kept ≡ min (length log) 20)

last-KeepsLast : (log : List Entry) → KeepsLast (last_entries 20 log) log
unfolding last_entries
last-KeepsLast log =
    let k = length log - 20 in
    let size = length-drop k log in (take k log, sym (take-append-drop k log), omega arith)

-- After any checks of a new agent, the entries of all checks, the oldest first, end with the history,
-- which has the last 20 of them, or all if there are no more.
pub history_is_recent :
    (agent_id : Str) (url : Option Str) (checks : List Check)
    → KeepsLast (after agent_id url checks).history (full_log agent_id url checks)
history_is_recent agent_id url checks =
    subst (λ kept. KeepsLast kept (full_log agent_id url checks))
      (sym (history_last agent_id url checks)) (last-KeepsLast (full_log agent_id url checks))
