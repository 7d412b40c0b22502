-- ===== src/Evidence/Drain/Rounds.antt =====
-- The rounds of the loop of gateway/evidence_buffer.py that come to their ends, each after what arrived
-- since the round before.
use agent_authorization_gate.Evidence.{
  EvidenceItem, EvidenceBuffer, Saved, flush_batch, List, Bool, ℕ, collect_batch, enqueue,
}
use agent_authorization_gate.Evidence.Conservation.{outcomes}
use agent_authorization_gate.Evidence.Drain.{next_batch}
use agent_authorization_gate.Evidence.Order.{List-cases, outcomes-append, flush_batch-Persisted}
use agent_authorization_gate.Evidence.Drain.Steps.{next_batch-parts}
use agent_authorization_gate.Base.{
  Str, ◌≡◌, ◌∷◌, ◌++◌, ◌≤◌, length, sym, append-nil, arith, ◌∙◌, append_assoc, [], ◌⊎◌, ap, inl,
  inr, refl, ◌+◌, length-append, map,
}

-- Two splits of one list: the shorter first part begins the other.
append_split {ℓ} :
    {A : Type ℓ} (xs us ys vs : List A)
    → xs ++ ys ≡ us ++ vs
    → length xs ≤ length us
    → (w : List A) × (us ≡ xs ++ w)
append_split [] us ys vs e n = (us, refl)
append_split (x ∷ xs) [] ys vs e n = absurd (omega arith)
append_split (x ∷ xs) (u ∷ us) ys vs e n =
    let same : x ≡ u = cc in let (w, p) = append_split xs us ys vs (cc) (omega arith) in (w, cc)

append-cancel {ℓ} : {A : Type ℓ} (xs : List A) {ys zs : List A} → xs ++ ys ≡ xs ++ zs → ys ≡ zs
append-cancel [] e = e
append-cancel (x ∷ xs) e = append-cancel xs cc

module _ {ℓ} {P : Type ℓ} where
  abbrev pub item_of : Str × Str × P → EvidenceItem P
  item_of (kind, tenant, payload) = record { kind = kind; tenant = tenant; payload = payload }

  -- All that arrives, in order.
  abbrev pub arrived : List (List (Str × Str × P)) → List (EvidenceItem P)
  arrived [] = []
  arrived (new ∷ later) = map item_of new ++ arrived later

  abbrev pub enqueue_all : List (Str × Str × P) → EvidenceBuffer P → EvidenceBuffer P
  enqueue_all [] b = b
  enqueue_all ((kind, tenant, payload) ∷ new) b = enqueue_all new (enqueue kind tenant payload b)

  module _ (saves : Saved P → Bool) (max_batch_size : ℕ) where
    -- One turn of `_drain_loop`.
    unfoldable pub drain_round :
        EvidenceBuffer P × List (Saved P) → EvidenceBuffer P × List (Saved P)
    drain_round (b, store) =
        let (batch, b') = next_batch max_batch_size b in flush_batch saves batch (b', store)

    -- `_drain_loop`, for as many turns as there are entries; each entry arrives before its turn.
    unfoldable pub drain_loop :
        List (List (Str × Str × P))
        → EvidenceBuffer P × List (Saved P)
        → EvidenceBuffer P × List (Saved P)
    drain_loop [] s = s
    drain_loop (new ∷ later) (b, store) = drain_loop later (drain_round (enqueue_all new b, store))

    enqueue_all-queue :
        (new : List (Str × Str × P)) (b : EvidenceBuffer P)
        → (enqueue_all new b).queue ≡ b.queue ++ map item_of new
    unfolding enqueue
    enqueue_all-queue [] b = sym (append-nil b.queue)
    enqueue_all-queue ((kind, tenant, payload) ∷ new) b =
        let x = item_of (kind, tenant, payload) in
        enqueue_all-queue new (enqueue kind tenant payload b)
        ∙ append_assoc b.queue (x ∷ []) (map item_of new)

    -- A turn handles a batch from the front of the queue, which is not empty if the queue is not.
    round-Handles :
        (b : EvidenceBuffer P) (store : List (Saved P))
        → let batch = (next_batch max_batch_size b).0 in
          let t = drain_round (b, store) in
          (b.queue ≡ batch ++ t.0.queue) × (t.1 ≡ store ++ outcomes saves batch)
    unfolding drain_round
    round-Handles b store =
        let (q, same) = next_batch-parts saves max_batch_size b in
        let batch = (next_batch max_batch_size b).0 in
        let p = flush_batch-Persisted saves batch (next_batch max_batch_size b).1 store in
        (q ∙ ap (λ rest. batch ++ rest) (sym p.0), p.3)

    round_progress :
        (b : EvidenceBuffer P) (i : EvidenceItem P) (rest : List (EvidenceItem P))
        → b.queue ≡ i ∷ rest
        → 1 ≤ length (next_batch max_batch_size b).0
    unfolding next_batch collect_batch
    round_progress b i rest e = rw e (omega arith)

    -- The items that were handled are the first ones of all, and their saves are in the store; they are
    -- as many as there were turns, or as stood in the queue.
    abbrev Handled : List (List (Str × Str × P)) → EvidenceBuffer P → List (Saved P) → Type ℓ
    Handled arrivals b store =
        (handled : List (EvidenceItem P)) × (b.queue ++ arrived arrivals
          ≡ handled ++ (drain_loop arrivals (b, store)).0.queue)
        × ((drain_loop arrivals (b, store)).1 ≡ store ++ outcomes saves handled)
        × ((length b.queue ≤ length handled) ⊎ (length arrivals ≤ length handled))

    loop-Handled :
        (arrivals : List (List (Str × Str × P))) (b : EvidenceBuffer P) (store : List (Saved P))
        → Handled arrivals b store
    unfolding drain_loop
    loop-Handled [] b store = ([], append-nil b.queue, sym (append-nil store), inr (omega arith))
    loop-Handled (new ∷ later) b store =
        let b' = enqueue_all new b in
        let t = drain_round (b', store) in
        let batch = (next_batch max_batch_size b').0 in
        let came = map item_of new in
        let (front, o) = round-Handles b' store in
        let (h, q, s, n) = loop-Handled later t.0 t.1 in
        let fin = drain_loop later t in
        let all = enqueue_all-queue new b in
        let size : length b.queue + length came ≡ length batch + length t.0.queue =
          sym (length-append b.queue came)
          ∙ ap length (sym all ∙ front)
          ∙ length-append batch t.0.queue in
        let sum = length-append batch h in
        (
          batch ++ h,
          sym (append_assoc b.queue came (arrived later))
              ∙ ap (λ l. l ++ arrived later) (sym all ∙ front)
              ∙ append_assoc batch t.0.queue (arrived later)
              ∙ ap (λ l. batch ++ l) q
              ∙ sym (append_assoc batch h fin.0.queue),
          s
              ∙ ap (λ l. l ++ outcomes saves h) o
              ∙ append_assoc store (outcomes saves batch) (outcomes saves h)
              ∙ ap (λ l. store ++ l) (sym (outcomes-append saves batch h)),
          elim n [
            | inl emptied ↦ inl (omega arith)
            | inr enough ↦ elim (List-cases b.queue) [
              | inl none_left ↦ let zero_left = ap length none_left in inl (omega arith)
              | inr (i, rest, e) ↦
                  let some_taken =
                    round_progress b' i (rest ++ came) (all ∙ ap (λ l. l ++ came) e) in
                  inr (omega arith)
            ]
          ],
        )

    -- Whatever arrives in the meantime, as many turns of the loop as there are items at the front of
    -- the queue handle them all, in their order and before what arrives: the items that were handled
    -- are these and the ones that follow them among the others and what arrived, each once, the rest
    -- is in the queue, and the store has got the saves of the handled items that returned, and no
    -- others.
    pub pending_handled :
        (arrivals : List (List (Str × Str × P))) (b : EvidenceBuffer P) (store : List (Saved P))
        (pending more : List (EvidenceItem P))
        → b.queue ≡ pending ++ more
        → length pending ≤ length arrivals
        → (later : List (EvidenceItem P)) × (more ++ arrived arrivals
            ≡ later ++ (drain_loop arrivals (b, store)).0.queue)
          × ((drain_loop arrivals (b, store)).1 ≡ store ++ outcomes saves (pending ++ later))
    pending_handled arrivals b store pending more q h =
        let (handled, parts, saved, n) = loop-Handled arrivals b store in
        let rest = (drain_loop arrivals (b, store)).0.queue in
        let whole : pending ++ (more ++ arrived arrivals) ≡ handled ++ rest =
          sym (append_assoc pending more (arrived arrivals))
          ∙ ap (λ l. l ++ arrived arrivals) (sym q)
          ∙ parts in
        let size = ap length q ∙ length-append pending more in
        let enough : length pending ≤ length handled = elim n [
          | inl emptied ↦ omega arith
          | inr turns ↦ omega arith
        ] in
        let (later, split) =
          append_split pending handled (more ++ arrived arrivals) rest whole enough in
        (
          later,
          append-cancel pending
              (whole ∙ ap (λ l. l ++ rest) split ∙ append_assoc pending later rest),
          saved ∙ ap (λ l. store ++ outcomes saves l) split,
        )
