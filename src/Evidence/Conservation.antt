-- ===== src/Evidence/Conservation.antt =====
-- What gateway/evidence_buffer.py counts and saves.
use agent_authorization_gate.Base.{
  ℕ, ◌+◌, ◌≡◌, refl, sym, ap, ◌∙◌, Bool, Bool-cases, inl, inr, List, [], ◌∷◌, ◌++◌, append-nil,
  append_assoc, arith, length, if◌then◌else◌,
}
use agent_authorization_gate.Evidence.{
  EvidenceItem, EvidenceBuffer, Saved, saved_as, all_return, persist_item, persist_items,
  persist_batch,
}

module _ {ℓ} {P : Type ℓ} (saves : Saved P → Bool) where
  -- What is saved of an item.
  abbrev pub outcome : EvidenceItem P → List (Saved P)
  outcome i = if all_return saves (saved_as i) then saved_as i else []

  abbrev pub outcomes : List (EvidenceItem P) → List (Saved P)
  outcomes [] = []
  outcomes (i ∷ items) = outcome i ++ outcomes items

  -- The second state follows from the first by the persistence of `n` items that saved `out`.
  abbrev pub Persisted :
      EvidenceBuffer P × List (Saved P)
      → EvidenceBuffer P × List (Saved P)
      → ℕ
      → List (Saved P)
      → Type ℓ
  Persisted s t n out =
      (t.0.queue ≡ s.0.queue)
      × (t.0.total_enqueued ≡ s.0.total_enqueued)
      × (t.0.total_persisted + t.0.flush_errors ≡ s.0.total_persisted + s.0.flush_errors + n)
      × (t.1 ≡ s.1 ++ out)

  pub item-Persisted :
      (i : EvidenceItem P) (b : EvidenceBuffer P) (store : List (Saved P))
      → Persisted (b, store) (persist_item saves i (b, store)) 1 (outcome i)
  unfolding persist_item
  item-Persisted i b store = elim (Bool-cases (all_return saves (saved_as i))) [
    | inl returned ↦ rw returned (refl, refl, omega arith, refl)
    | inr raised ↦ rw raised (refl, refl, omega arith, sym (append-nil store))
  ]

  pub items-Persisted :
      (batch : List (EvidenceItem P)) (b : EvidenceBuffer P) (store : List (Saved P))
      → Persisted (b, store) (persist_items saves batch (b, store)) (length batch) (outcomes batch)
  unfolding persist_items
  items-Persisted [] b store = (refl, refl, omega arith, sym (append-nil store))
  items-Persisted (i ∷ batch) b store =
      let s = persist_item saves i (b, store) in
      let (q, e, n, o) = item-Persisted i b store in
      let (q', e', n', o') = items-Persisted batch s.0 s.1 in
      (
        q' ∙ q,
        e' ∙ e,
        omega arith,
        o' ∙ ap (λ l. l ++ outcomes batch) o ∙ append_assoc store (outcome i) (outcomes batch),
      )

  pub batch-Persisted :
      (batch : List (EvidenceItem P)) (b : EvidenceBuffer P) (store : List (Saved P))
      → Persisted (b, store) (persist_batch saves batch (b, store)) (length batch) (outcomes batch)
  unfolding persist_batch
  batch-Persisted batch b store = items-Persisted batch b store
