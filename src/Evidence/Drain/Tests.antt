-- ===== src/Evidence/Drain/Tests.antt =====
-- Instances of the theorems on the background task of gateway/evidence_buffer.py: three receipts, two of
-- which the task takes.
use agent_authorization_gate.Evidence.{
  EvidenceItem, EvidenceBuffer, Saved, enqueue, ℕ, List, collect_batch, Bool, [], batch_limit,
  flush, flush_batch, persist_batch, persist_items, persist_item, all_return, saved_as,
}
use agent_authorization_gate.Evidence.Conservation.{outcomes}
use agent_authorization_gate.Evidence.Drain.{
  DrainState, next_batch, start, enqueue_item, wake, stop, cancel,
}
use agent_authorization_gate.Evidence.Drain.Steps.{
  new_state, empty_buffer, Run, woken, started, enqueued, created,
}
use agent_authorization_gate.Evidence.Drain.Rounds.{arrived, drain_loop, pending_handled}
use agent_authorization_gate.Evidence.Drain.Stopped.{Stopped, stop_loses_batch}
use agent_authorization_gate.Base.{Str, codes, ◌∷◌, ◌≡◌, false, true, ◌++◌, arith, refl, str_eq}

abbrev all_saved : Saved ℕ → Bool
all_saved _ = true

abbrev item : ℕ → EvidenceItem ℕ
item n = record { kind = codes "receipt"; tenant = codes "t"; payload = n }

abbrev items : List (EvidenceItem ℕ)
items = item 1 ∷ item 2 ∷ item 3 ∷ []

abbrev put : ℕ → DrainState ℕ → DrainState ℕ
put n s = enqueue_item (codes "receipt") (codes "t") n s

abbrev ready : DrainState ℕ
ready = start (put 3 (put 2 (put 1 new_state)))

abbrev taken : DrainState ℕ
taken = wake 2 ready

taken-Run : Run all_saved 2 items taken
unfolding start enqueue_item
taken-Run = woken refl (
    started (
      enqueued (codes "receipt") (codes "t") 3 (
        enqueued (codes "receipt") (codes "t") 2
          (enqueued (codes "receipt") (codes "t") 1 created))))

stop_loses_batch_example : Stopped all_saved false items taken (stop all_saved false 1 2 taken)
unfolding start enqueue_item enqueue wake next_batch collect_batch batch_limit
stop_loses_batch_example =
    stop_loses_batch all_saved 2 1 false items taken taken-Run (omega arith) (omega arith)

-- The two items in hand are lost.
lost : (stop all_saved false 1 2 taken).buffer.total_persisted ≡ 1
unfolding start enqueue_item enqueue wake next_batch collect_batch batch_limit stop cancel flush
    flush_batch persist_batch persist_items persist_item all_return saved_as str_eq
lost = refl

abbrev arrivals : List (List (Str × Str × ℕ))
arrivals = [] ∷ ((codes "receipt", codes "t", 4) ∷ []) ∷ []

abbrev three : EvidenceBuffer ℕ
three = record empty_buffer { queue = items; total_enqueued = 3 }

pending_handled_example :
    (later : List (EvidenceItem ℕ)) × (item 3 ∷ arrived arrivals
      ≡ later ++ (drain_loop all_saved 2 arrivals (three, [])).0.queue)
    × ((drain_loop all_saved 2 arrivals (three, [])).1
        ≡ outcomes all_saved (item 1 ∷ item 2 ∷ later))
pending_handled_example =
    pending_handled all_saved 2 arrivals three [] (item 1 ∷ item 2 ∷ []) (item 3 ∷ []) refl
      (omega arith)
