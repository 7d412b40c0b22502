-- ===== src/Evidence.antt =====
-- gateway/evidence_buffer.py: the queue of evidence between the hot path and the store. A save of the
-- store is an argument: whether it returns. Calls run to their end; the background task, which may be
-- cancelled in the middle of a batch, is in Evidence/Drain. The clock is not modelled.
pub mod Conservation
pub mod Drain
pub mod Order
pub mod Tests
use agent_authorization_gate.Base.{
  ℕ, zero, suc, ◌+◌, ◌-◌, Bool, true, false, List, [], ◌∷◌, ◌++◌, Str, codes, str_eq, length, take,
  drop, if◌then◌else◌,
}
use Prim.Native.Nat.{min}

-- `payload` is the evidence; any text names a kind.
pub record EvidenceItem {ℓ} (P : Type ℓ) : Type ℓ where
  pub kind : Str
  pub tenant : Str
  pub payload : P

-- What the store was asked to save, in order.
pub data Saved {ℓ} (P : Type ℓ) : Type ℓ where
  receipt stats rate_limits : Str → P → Saved P

pub record EvidenceBuffer {ℓ} (P : Type ℓ) : Type ℓ where
  pub queue : List (EvidenceItem P)
  pub flush_count : ℕ
  pub flush_errors : ℕ
  pub total_enqueued : ℕ
  pub total_persisted : ℕ

-- `min(max_items or max_batch_size, max_batch_size)`
unfoldable pub batch_limit : ℕ → ℕ → ℕ
batch_limit zero max_batch_size = max_batch_size
batch_limit (suc n) max_batch_size = min (suc n) max_batch_size

module _ {ℓ} {P : Type ℓ} where
  unfoldable pub enqueue : Str → Str → P → EvidenceBuffer P → EvidenceBuffer P
  enqueue kind tenant payload b = record b {
    queue = b.queue ++ record { kind = kind; tenant = tenant; payload = payload } ∷ [];
    total_enqueued = b.total_enqueued + 1;
  }

  -- `_collect_batch(max_items)`; a missing `max_items` is 0, which counts as missing.
  unfoldable pub collect_batch : ℕ → ℕ → EvidenceBuffer P → List (EvidenceItem P) × EvidenceBuffer P
  collect_batch max_items max_batch_size b =
      let limit = batch_limit max_items max_batch_size in
      (take limit b.queue, record b { queue = drop limit b.queue })

  -- The save of an item's kind; an unknown kind saves nothing.
  unfoldable pub saved_as : EvidenceItem P → List (Saved P)
  saved_as i =
      if str_eq i.kind (codes "receipt")
      then receipt i.tenant i.payload ∷ []
      else if str_eq i.kind (codes "stats")
      then stats i.tenant i.payload ∷ []
      else if str_eq i.kind (codes "rate_limits")
      then rate_limits i.tenant i.payload ∷ []
      else []

  abbrev is_empty : List (EvidenceItem P) → Bool
  is_empty [] = true
  is_empty (_ ∷ _) = false

  module _ (saves : Saved P → Bool) where
    -- Whether the save of an item returns; without a save nothing raises.
    unfoldable pub all_return : List (Saved P) → Bool
    all_return [] = true
    all_return (s ∷ rest) = if saves s then all_return rest else false

    -- The body of the loop of `_persist_batch`, with what the store has saved.
    unfoldable pub persist_item :
        EvidenceItem P → EvidenceBuffer P × List (Saved P) → EvidenceBuffer P × List (Saved P)
    persist_item i (b, store) =
        if all_return (saved_as i)
        then (record b { total_persisted = b.total_persisted + 1 }, store ++ saved_as i)
        else (record b { flush_errors = b.flush_errors + 1 }, store)

    unfoldable pub persist_items :
        List (EvidenceItem P)
        → EvidenceBuffer P × List (Saved P)
        → EvidenceBuffer P × List (Saved P)
    persist_items [] s = s
    persist_items (i ∷ batch) s = persist_items batch (persist_item i s)

    abbrev counted : EvidenceBuffer P × List (Saved P) → EvidenceBuffer P × List (Saved P)
    counted (b, store) = (record b { flush_count = b.flush_count + 1 }, store)

    unfoldable pub persist_batch :
        List (EvidenceItem P)
        → EvidenceBuffer P × List (Saved P)
        → EvidenceBuffer P × List (Saved P)
    persist_batch batch s = counted (persist_items batch s)

    -- One turn of the loop of `flush`; an empty batch is not persisted.
    unfoldable pub flush_batch :
        List (EvidenceItem P)
        → EvidenceBuffer P × List (Saved P)
        → EvidenceBuffer P × List (Saved P)
    flush_batch [] s = s
    flush_batch (i ∷ batch) s = persist_batch (i ∷ batch) s

    -- `flush`, on fuel: its count, the buffer, the store, and whether the loop came to its end.
    unfoldable pub flush :
        ℕ → ℕ → EvidenceBuffer P × List (Saved P) → ℕ × Bool × EvidenceBuffer P × List (Saved P)
    flush zero max_batch_size (b, store) = (0, is_empty b.queue, b, store)
    flush (suc fuel) max_batch_size (b, store) = elim (is_empty b.queue) [
      | true ↦ (0, true, b, store)
      | false ↦
          let (batch, b') = collect_batch (length b.queue) max_batch_size b in
          let (b'', store') = flush_batch batch (b', store) in
          let (count, ended, b''', store'') = flush fuel max_batch_size (b'', store') in
          (length batch + count, ended, b''', store'')
    ]
