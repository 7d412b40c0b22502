-- ===== src/Evidence/Drain/Steps.antt =====
-- The runs of the background task of gateway/evidence_buffer.py, with evidence that arrives in between.
use agent_authorization_gate.Evidence.{
  EvidenceItem, EvidenceBuffer, Saved, List, Bool, [], ℕ, false, collect_batch, enqueue,
  batch_limit, persist_item,
}
use agent_authorization_gate.Evidence.Conservation.{outcome, outcomes, item-Persisted}
use agent_authorization_gate.Evidence.Drain.{
  DrainTask, DrainState, done, next_batch, task_of, start, enqueue_item, wake, persist_next,
  not_started, persisting, waiting,
}
use agent_authorization_gate.Base.{
  ◌≡◌, Str, ◌++◌, length, ◌+◌, ◌∷◌, inl, inr, arith, sym, length-append, refl, ◌∙◌,
  take-append-drop, ap, append_assoc, ◌-◌, ◌⊎◌, subst,
}
use agent_authorization_gate.Evidence.Order.{List-cases, outcomes-append}

module _ {ℓ} {P : Type ℓ} where
  abbrev pub empty_buffer : EvidenceBuffer P
  empty_buffer = record {
    queue = [];
    flush_count = 0;
    flush_errors = 0;
    total_enqueued = 0;
    total_persisted = 0;
  }

  abbrev pub new_state : DrainState P
  new_state = record {
    buffer = empty_buffer;
    store = [];
    task = not_started;
    shutting_down = false;
  }

  -- What the task has taken and not saved yet.
  abbrev pub in_hand : DrainTask P → List (EvidenceItem P)
  in_hand (persisting batch) = batch
  in_hand _ = []

  task-cases :
      (t : DrainTask P)
      → (t ≡ not_started)
        ⊎ ((t ≡ done)
            ⊎ ((t ≡ waiting) ⊎ ((batch : List (EvidenceItem P)) × (t ≡ persisting batch))))
  task-cases not_started = inl refl
  task-cases done = inr (inl refl)
  task-cases waiting = inr (inr (inl refl))
  task-cases (persisting batch) = inr (inr (inr (batch, refl)))

module _ {ℓ} {P : Type ℓ} (saves : Saved P → Bool) (max_batch_size : ℕ) where
  -- The states that a new buffer reaches, with all evidence that was enqueued, in order.
  pub data Run : List (EvidenceItem P) → DrainState P → Type ℓ where
    created : Run [] new_state
    enqueued :
        {h : List (EvidenceItem P)} {s : DrainState P} (kind tenant : Str) (payload : P)
        → Run h s
        → Run
            (h ++ record { kind = kind; tenant = tenant; payload = payload } ∷ [])
            (enqueue_item kind tenant payload s)
    started : {h : List (EvidenceItem P)} {s : DrainState P} → Run h s → Run h (start s)
    woken :
        {h : List (EvidenceItem P)} {s : DrainState P}
        → s.task ≡ waiting
        → Run h s
        → Run h (wake max_batch_size s)
    persisted :
        {h : List (EvidenceItem P)} {s : DrainState P} (i : EvidenceItem P)
        (rest : List (EvidenceItem P))
        → s.task ≡ persisting (i ∷ rest)
        → Run h s
        → Run h (persist_next saves i rest s)

  -- Of the evidence that was enqueued, so many items were handled and these are pending; and the store
  -- has what was saved of those that were handled.
  abbrev pub Balance :
      List (EvidenceItem P) → ℕ → ℕ → List (EvidenceItem P) → List (Saved P) → Type ℓ
  Balance h total handled pending store =
      (total ≡ length h)
      × (handled + length pending ≡ length h)
      × (outcomes saves h ≡ store ++ outcomes saves pending)

  abbrev pub Accounted : List (EvidenceItem P) → DrainState P → Type ℓ
  Accounted h s =
      Balance h s.buffer.total_enqueued (s.buffer.total_persisted + s.buffer.flush_errors)
        (in_hand s.task ++ s.buffer.queue) s.store

  pub next_batch-parts :
      (b : EvidenceBuffer P)
      → (b.queue ≡ (next_batch max_batch_size b).0 ++ (next_batch max_batch_size b).1.queue)
        × ((next_batch max_batch_size b).1
            ≡ record b { queue = (next_batch max_batch_size b).1.queue })
  unfolding next_batch collect_batch
  next_batch-parts b = elim (List-cases b.queue) [
    | inl e ↦ rw e (sym (take-append-drop (batch_limit 0 max_batch_size) []), refl)
    | inr (i, rest, e) ↦
        let limit = batch_limit (max_batch_size - 1) max_batch_size in
        rw e (ap (λ q. i ∷ q) (sym (take-append-drop limit rest)), refl)
  ]

  in_hand-task_of : (batch : List (EvidenceItem P)) → in_hand (task_of batch) ≡ batch
  in_hand-task_of [] = refl
  in_hand-task_of (_ ∷ _) = refl

  more-Balance :
      (h pending : List (EvidenceItem P)) (total handled : ℕ) (store : List (Saved P))
      (x : EvidenceItem P)
      → Balance h total handled pending store
      → Balance (h ++ x ∷ []) (total + 1) handled (pending ++ x ∷ []) store
  more-Balance h pending total handled store x (t, n, o) =
      let l = length-append h (x ∷ []) in
      let l' = length-append pending (x ∷ []) in
      (
        omega arith,
        omega arith,
        outcomes-append saves h (x ∷ [])
            ∙ ap (λ out. out ++ outcomes saves (x ∷ [])) o
            ∙ append_assoc store (outcomes saves pending) (outcomes saves (x ∷ []))
            ∙ ap (λ out. store ++ out) (sym (outcomes-append saves pending (x ∷ []))),
      )

  -- One item less is pending.
  less-Balance :
      (h rest : List (EvidenceItem P)) (total handled : ℕ) (store : List (Saved P))
      (x : EvidenceItem P)
      → Balance h total handled (x ∷ rest) store
      → Balance h total (handled + 1) rest (store ++ outcome saves x)
  less-Balance h rest total handled store x (t, n, o) =
      (t, omega arith, o ∙ sym (append_assoc store (outcome saves x) (outcomes saves rest)))

  start_same :
      (s : DrainState P)
      → (in_hand (start s).task ≡ in_hand s.task)
        × ((start s).buffer ≡ s.buffer)
        × ((start s).store ≡ s.store)
  unfolding start
  start_same s = elim (task-cases s.task) [
    | inl e ↦ rw e (refl, refl, refl)
    | inr (inl e) ↦ rw e (refl, refl, refl)
    | inr (inr (inl e)) ↦ rw e (refl, refl, refl)
    | inr (inr (inr (batch, e))) ↦ rw e (refl, refl, refl)
  ]

  start-Accounted :
      (h : List (EvidenceItem P)) (s : DrainState P) → Accounted h s → Accounted h (start s)
  start-Accounted h s a = let (t, b, store) = start_same s in rw (t, b, store) a

  wake-Accounted :
      (h : List (EvidenceItem P)) (s : DrainState P)
      → s.task ≡ waiting
      → Accounted h s
      → Accounted h (wake max_batch_size s)
  unfolding wake
  wake-Accounted h s e a =
      let (q, same) = next_batch-parts s.buffer in
      let held : in_hand s.task ++ s.buffer.queue ≡ s.buffer.queue =
        ap (λ t. in_hand t ++ s.buffer.queue) e in
      rw (same, in_hand-task_of (next_batch max_batch_size s.buffer).0)
        (subst
          (λ pending.
            Balance h s.buffer.total_enqueued (s.buffer.total_persisted + s.buffer.flush_errors)
              pending s.store)
          (held ∙ q) a)

  -- The state after the save of the first item in hand.
  item-Balance :
      (h : List (EvidenceItem P)) (s : DrainState P) (i : EvidenceItem P)
      (rest : List (EvidenceItem P))
      → s.task ≡ persisting (i ∷ rest)
      → Accounted h s
      → let t = persist_item saves i (s.buffer, s.store) in
        Balance h t.0.total_enqueued
          (t.0.total_persisted + t.0.flush_errors)
          (rest ++ t.0.queue)
          t.1
  item-Balance h s i rest e a =
      let t = persist_item saves i (s.buffer, s.store) in
      let (q, total, handled, out) = item-Persisted saves i s.buffer s.store in
      let held =
        subst
          (λ task.
            Balance h s.buffer.total_enqueued (s.buffer.total_persisted + s.buffer.flush_errors)
              (in_hand task ++ s.buffer.queue) s.store)
          e a in
      let b =
        less-Balance h (rest ++ s.buffer.queue) s.buffer.total_enqueued
          (s.buffer.total_persisted + s.buffer.flush_errors) s.store i held in
      rw (q, total, handled, out) b

  persist_next-Accounted :
      (h : List (EvidenceItem P)) (s : DrainState P) (i : EvidenceItem P)
      (rest : List (EvidenceItem P))
      → s.task ≡ persisting (i ∷ rest)
      → Accounted h s
      → Accounted h (persist_next saves i rest s)
  unfolding persist_next
  persist_next-Accounted h s i [] e a = item-Balance h s i [] e a
  persist_next-Accounted h s i (j ∷ rest) e a = item-Balance h s i (j ∷ rest) e a

  -- In every state that a run reaches, each item that was enqueued is counted as persisted or as an
  -- error, or is in hand, or is in the queue.
  pub run-Accounted : {h : List (EvidenceItem P)} {s : DrainState P} → Run h s → Accounted h s
  unfolding enqueue_item enqueue
  run-Accounted created = (refl, refl, refl)
  run-Accounted (enqueued {h} {s} kind tenant payload run) =
      let x : EvidenceItem P = record { kind = kind; tenant = tenant; payload = payload } in
      subst
        (λ pending.
          Balance (h ++ x ∷ []) (s.buffer.total_enqueued + 1)
            (s.buffer.total_persisted + s.buffer.flush_errors) pending s.store)
        (append_assoc (in_hand s.task) s.buffer.queue (x ∷ []))
        (more-Balance h (in_hand s.task ++ s.buffer.queue) s.buffer.total_enqueued
          (s.buffer.total_persisted + s.buffer.flush_errors) s.store x (run-Accounted run))
  run-Accounted (started {h} {s} run) = start-Accounted h s (run-Accounted run)
  run-Accounted (woken {h} {s} e run) = wake-Accounted h s e (run-Accounted run)
  run-Accounted (persisted {h} {s} i rest e run) =
      persist_next-Accounted h s i rest e (run-Accounted run)
