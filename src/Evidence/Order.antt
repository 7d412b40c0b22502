-- ===== src/Evidence/Order.antt =====
-- `flush` of gateway/evidence_buffer.py: it ends, and saves the queue in its order.
use agent_authorization_gate.Base.{
  ℕ, zero, suc, ◌+◌, ◌-◌, ◌≤◌, ◌≡◌, refl, sym, ap, ◌∙◌, Bool, true, ◌⊎◌, inl, inr, List, [], ◌∷◌,
  ◌++◌, append-nil, append_assoc, arith, length, take, drop, length-append, length-drop,
  take-append-drop, subst,
}
use agent_authorization_gate.Evidence.{
  EvidenceItem, EvidenceBuffer, Saved, batch_limit, collect_batch, flush_batch, flush,
}
use agent_authorization_gate.Evidence.Conservation.{outcome, outcomes, Persisted, batch-Persisted}

pub List-cases {ℓ} :
    {A : Type ℓ} (xs : List A) → (xs ≡ []) ⊎ ((x : A) × (ys : List A) × (xs ≡ x ∷ ys))
List-cases [] = inl refl
List-cases (x ∷ ys) = inr (x, ys, refl)

batch_limit-positive : (n max : ℕ) → 1 ≤ max → 1 ≤ batch_limit n max
unfolding batch_limit
batch_limit-positive zero max h = h
batch_limit-positive (suc n) max h = omega arith

module _ {ℓ} {P : Type ℓ} (saves : Saved P → Bool) where
  pub outcomes-append :
      (xs ys : List (EvidenceItem P))
      → outcomes saves (xs ++ ys) ≡ outcomes saves xs ++ outcomes saves ys
  outcomes-append [] ys = refl
  outcomes-append (x ∷ xs) ys =
      ap (λ l. outcome saves x ++ l) (outcomes-append xs ys)
      ∙ sym (append_assoc (outcome saves x) (outcomes saves xs) (outcomes saves ys))

  pub flush_batch-Persisted :
      (batch : List (EvidenceItem P)) (b : EvidenceBuffer P) (store : List (Saved P))
      → Persisted saves
          (b, store)
          (flush_batch saves batch (b, store))
          (length batch)
          (outcomes saves batch)
  unfolding flush_batch
  flush_batch-Persisted [] b store = (refl, refl, omega arith, sym (append-nil store))
  flush_batch-Persisted (i ∷ batch) b store = batch-Persisted saves (i ∷ batch) b store

  -- The flush ended with an empty queue, and saved what was in the queue in its order.
  abbrev pub Drained :
      EvidenceBuffer P × List (Saved P) → ℕ × Bool × EvidenceBuffer P × List (Saved P) → Type ℓ
  Drained s r =
      (r.0 ≡ length s.0.queue)
      × (r.1 ≡ true)
      × (r.2.queue ≡ [])
      × (r.2.total_enqueued ≡ s.0.total_enqueued)
      × (r.2.total_persisted + r.2.flush_errors
          ≡ s.0.total_persisted + s.0.flush_errors + length s.0.queue)
      × (r.3 ≡ s.1 ++ outcomes saves s.0.queue)

  empty-Drained :
      (fuel max_batch_size : ℕ) (b : EvidenceBuffer P) (store : List (Saved P))
      → b.queue ≡ []
      → Drained (b, store) (flush saves fuel max_batch_size (b, store))
  unfolding flush
  empty-Drained zero max b store e =
      rw e (refl, refl, refl, refl, omega arith, sym (append-nil store))
  empty-Drained (suc fuel) max b store e =
      rw e (refl, refl, refl, refl, omega arith, sym (append-nil store))

  -- One batch, and the flush of what it left.
  Drained-after :
      (batch : List (EvidenceItem P)) (b t : EvidenceBuffer P) (store out : List (Saved P))
      (r : ℕ × Bool × EvidenceBuffer P × List (Saved P))
      → b.queue ≡ batch ++ t.queue
      → Persisted saves
          (record b { queue = t.queue }, store)
          (t, out)
          (length batch)
          (outcomes saves batch)
      → Drained (t, out) r
      → Drained (b, store) (length batch + r.0, r.1, r.2, r.3)
  Drained-after batch b t store out r q (pq, pe, pn, po) (c, d, eq, e, n, o) =
      let size : length b.queue ≡ length batch + length t.queue =
        ap length q ∙ length-append batch t.queue in
      (
        omega arith,
        d,
        eq,
        e ∙ pe,
        omega arith,
        o
            ∙ ap (λ l. l ++ outcomes saves t.queue) po
            ∙ append_assoc store (outcomes saves batch) (outcomes saves t.queue)
            ∙ ap (λ l. store ++ l) (sym (ap (outcomes saves) q ∙ outcomes-append batch t.queue)),
      )

  -- The first batch of a queue that is not empty.
  abbrev first_limit : ℕ → EvidenceBuffer P → ℕ
  first_limit max b = batch_limit (length b.queue) max

  abbrev first_batch : ℕ → EvidenceBuffer P → List (EvidenceItem P)
  first_batch max b = take (first_limit max b) b.queue

  abbrev after_batch : ℕ → EvidenceBuffer P → List (Saved P) → EvidenceBuffer P × List (Saved P)
  after_batch max b store =
      flush_batch saves (first_batch max b)
        (record b { queue = drop (first_limit max b) b.queue }, store)

  flush_step :
      (fuel max : ℕ) (b : EvidenceBuffer P) (store : List (Saved P)) (i : EvidenceItem P)
      (rest : List (EvidenceItem P))
      → b.queue ≡ i ∷ rest
      → flush saves (suc fuel) max (b, store) ≡ (
        length (first_batch max b) + (flush saves fuel max (after_batch max b store)).0,
        (flush saves fuel max (after_batch max b store)).1,
        (flush saves fuel max (after_batch max b store)).2,
        (flush saves fuel max (after_batch max b store)).3,
      )
  unfolding flush collect_batch
  flush_step fuel max b store i rest e = rw e refl

  pub flush_drains :
      (fuel max_batch_size : ℕ) (b : EvidenceBuffer P) (store : List (Saved P))
      → 1 ≤ max_batch_size
      → length b.queue ≤ fuel
      → Drained (b, store) (flush saves fuel max_batch_size (b, store))
  flush_drains zero max b store m h = elim (List-cases b.queue) [
    | inl none_left ↦ empty-Drained zero max b store none_left
    | inr (i, rest, e) ↦ absurd (omega (arith, ap length e))
  ]
  flush_drains (suc fuel) max b store m h = elim (List-cases b.queue) [
    | inl none_left ↦ empty-Drained (suc fuel) max b store none_left
    | inr (i, rest, e) ↦
        let limit = first_limit max b in
        let left = record b { queue = drop limit b.queue } in
        let t = after_batch max b store in
        let p = flush_batch-Persisted (first_batch max b) left store in
        let positive = batch_limit-positive (length b.queue) max m in
        let size : length b.queue ≡ suc (length rest) = ap length e in
        let shorter : length t.0.queue ≡ length b.queue - limit =
          ap length p.0 ∙ length-drop limit b.queue in
        let rest_drained = flush_drains fuel max t.0 t.1 m (omega arith) in
        let parts : b.queue ≡ first_batch max b ++ t.0.queue =
          sym (take-append-drop limit b.queue) ∙ ap (λ l. first_batch max b ++ l) (sym p.0) in
        subst (Drained (b, store)) (sym (flush_step fuel max b store i rest e)) (
          Drained-after (first_batch max b) b t.0 store t.1 (flush saves fuel max t) parts
            (refl, p.1, p.2, p.3) rest_drained)
  ]
