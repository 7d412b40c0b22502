-- ===== src/Evidence/Drain.antt =====
-- The background task of gateway/evidence_buffer.py: `start`, `_drain_loop` and `stop`, as the steps that
-- the task takes between two awaits. A cancellation finds the task at an await: waiting for an item, or
-- in the save of the first item in hand, which the store may have done or not.
pub mod Steps
pub mod Rounds
pub mod Stopped
pub mod Tests
use agent_authorization_gate.Base.{
  ℕ, ◌+◌, ◌-◌, Bool, true, false, List, [], ◌∷◌, ◌++◌, Str, if◌then◌else◌,
}
use agent_authorization_gate.Evidence.{
  EvidenceItem, EvidenceBuffer, Saved, enqueue, collect_batch, saved_as, persist_item, flush,
}

-- `_drain_task`: missing, in `wait_for`, in `_persist_batch` with what is left of its batch, or done.
pub data DrainTask {ℓ} (P : Type ℓ) : Type ℓ where
  not_started waiting done : DrainTask P
  persisting : List (EvidenceItem P) → DrainTask P

pub record DrainState {ℓ} (P : Type ℓ) : Type ℓ where
  pub buffer : EvidenceBuffer P
  pub store : List (Saved P)
  pub task : DrainTask P
  pub shutting_down : Bool

module _ {ℓ} {P : Type ℓ} where
  -- What the loop takes when its wait is over: the item that came and more, or at the timeout a batch.
  unfoldable pub next_batch : ℕ → EvidenceBuffer P → List (EvidenceItem P) × EvidenceBuffer P
  next_batch max_batch_size b = elim b.queue [
    | [] ↦ collect_batch 0 max_batch_size b
    | item ∷ rest ↦
        let (more, b') =
          collect_batch (max_batch_size - 1) max_batch_size (record b { queue = rest }) in
        (item ∷ more, b')
  ]

  -- An empty batch is not persisted: the loop waits again.
  abbrev task_of : List (EvidenceItem P) → DrainTask P
  task_of [] = waiting
  task_of (i ∷ batch) = persisting (i ∷ batch)

  unfoldable pub start : DrainState P → DrainState P
  start s = elim s.task [
    | not_started ↦ record s { task = waiting }
    | done ↦ record s { task = waiting }
    | waiting ↦ s
    | persisting _ ↦ s
  ]

  unfoldable pub enqueue_item : Str → Str → P → DrainState P → DrainState P
  enqueue_item kind tenant payload s = record s { buffer = enqueue kind tenant payload s.buffer }

  -- The end of a wait.
  unfoldable pub wake : ℕ → DrainState P → DrainState P
  wake max_batch_size s =
      let (batch, b) = next_batch max_batch_size s.buffer in
      record s { buffer = b; task = task_of batch }

  -- The flush count is raised with the last item, since no await follows it.
  abbrev end_batch : List (EvidenceItem P) → EvidenceBuffer P → EvidenceBuffer P
  end_batch [] b = record b { flush_count = b.flush_count + 1 }
  end_batch (_ ∷ _) b = b

  -- The save of the first item in hand, to its end.
  unfoldable pub persist_next :
      (Saved P → Bool) → EvidenceItem P → List (EvidenceItem P) → DrainState P → DrainState P
  persist_next saves i rest s =
      let (b, store) = persist_item saves i (s.buffer, s.store) in
      record s { buffer = end_batch rest b; store = store; task = task_of rest }

  -- What the save that was cancelled has left in the store.
  abbrev in_flight : Bool → DrainTask P → List (Saved P)
  in_flight arrived (persisting (i ∷ rest)) = if arrived then saved_as i else []
  in_flight arrived _ = []

  abbrev cancelled : DrainTask P → DrainTask P
  cancelled not_started = not_started
  cancelled _ = done

  -- `cancel()` and the wait for the task's end: `CancelledError` is no `Exception`, so that it leaves
  -- `_persist_batch`, and the loop ends.
  unfoldable pub cancel : Bool → DrainState P → DrainState P
  cancel arrived s = record s {
    store = s.store ++ in_flight arrived s.task;
    task = cancelled s.task;
  }

  -- `stop`: the final flush is on fuel.
  unfoldable pub stop : (Saved P → Bool) → Bool → ℕ → ℕ → DrainState P → DrainState P
  stop saves arrived fuel max_batch_size s =
      let c = cancel arrived (record s { shutting_down = true }) in
      let (_, _, b, store) = flush saves fuel max_batch_size (c.buffer, c.store) in
      record c { buffer = b; store = store }
