-- ===== src/Evidence/Drain/Stopped.antt =====
-- `stop` of gateway/evidence_buffer.py, in every state that a run of the buffer reaches.
use agent_authorization_gate.Evidence.{EvidenceItem, Saved, Bool, List, ℕ}
use agent_authorization_gate.Evidence.Conservation.{outcomes}
use agent_authorization_gate.Evidence.Order.{flush_drains, outcomes-append}
use agent_authorization_gate.Evidence.Drain.{DrainState, cancelled, in_flight, stop, cancel}
use agent_authorization_gate.Evidence.Drain.Steps.{in_hand, Run, run-Accounted}
use agent_authorization_gate.Base.{
  ◌≡◌, [], ◌≤◌, length, ◌+◌, ◌++◌, length-append, ◌∙◌, arith, ap, append_assoc, refl,
}

module _ {ℓ} {P : Type ℓ} (saves : Saved P → Bool) where
  -- The queue is empty. The items that were in the queue are handled, those in hand are not: they are
  -- the difference of the counters, and the store has at most the save that was in flight.
  abbrev pub Stopped : Bool → List (EvidenceItem P) → DrainState P → DrainState P → Type ℓ
  Stopped arrived h s t =
      (t.buffer.queue ≡ [])
      × (t.task ≡ cancelled s.task)
      × (t.buffer.total_enqueued ≡ length h)
      × (t.buffer.total_persisted + t.buffer.flush_errors + length (in_hand s.task) ≡ length h)
      × (outcomes saves h
          ≡ s.store ++ (outcomes saves (in_hand s.task) ++ outcomes saves s.buffer.queue))
      × (t.store ≡ s.store ++ (in_flight arrived s.task ++ outcomes saves s.buffer.queue))

  -- `stop` after any run of the buffer empties the queue, if the fuel is the length of the queue and
  -- batches have at least one item. What was in the queue is saved. The items that the task had in hand
  -- are lost: they are counted neither as persisted nor as errors, and nothing of them is saved but,
  -- if it arrived, the save that was in flight.
  pub stop_loses_batch :
      (max_batch_size fuel : ℕ) (arrived : Bool) (h : List (EvidenceItem P)) (s : DrainState P)
      → Run saves max_batch_size h s
      → 1 ≤ max_batch_size
      → length s.buffer.queue ≤ fuel
      → Stopped arrived h s (stop saves arrived fuel max_batch_size s)
  unfolding stop cancel
  stop_loses_batch max fuel arrived h s run m le =
      let (total, handled, out) = run-Accounted saves max run in
      let (c, ended, empty, e, n, o) =
        flush_drains saves fuel max s.buffer (s.store ++ in_flight arrived s.task) m le in
      let parts = length-append (in_hand s.task) s.buffer.queue in
      (
        empty,
        refl,
        e ∙ total,
        omega arith,
        out ∙ ap (λ l. s.store ++ l) (outcomes-append saves (in_hand s.task) s.buffer.queue),
        o ∙ append_assoc s.store (in_flight arrived s.task) (outcomes saves s.buffer.queue),
      )
