-- ===== src/Packet/Sorted.antt =====
-- The result of the sort of gateway/audit_packet_verifier.py is the one list in the order that
-- Packet/Ordered describes.
use agent_authorization_gate.Base.{
  ◌≡◌, ◌↔◌, refl, sym, ap, ap₂, ◌∙◌, true, false, Bool-cases, inl, inr, List, [], ◌∷◌, ok, >>=-ok,
  All, if◌then◌else◌, subst,
}
use agent_authorization_gate.Base.Int.{ℤ}
use agent_authorization_gate.Packet.{Envelope}
use agent_authorization_gate.Packet.Links.{seq_of, place, sort_by_seq}
use agent_authorization_gate.Packet.Ordered.{
  Numbered, AtMost, Ascending, same_number, with_number, InOrder, AtMost-refl, AtMost-both,
  same_number-true, same_number_self, Ascending-place, with_number-place,
}

sort-InOrder :
    (es : List Envelope) (sorted : List (ℤ × Envelope))
    → sort_by_seq es ≡ ok sorted
    → InOrder es sorted
unfolding sort_by_seq
sort-InOrder [] sorted h =
    let e : [] ≡ sorted = cc in subst (InOrder []) e (tt, ([], tt, λ k. refl))
sort-InOrder (e ∷ es) sorted h =
    let (n, number, h2) = >>=-ok (seq_of e) _ h in
    let (rest, h3, h4) = >>=-ok (sort_by_seq es) _ h2 in
    let (a, (numbered, every, same)) = sort-InOrder es rest h3 in
    let placed : place n e rest ≡ sorted = cc h4 in
    subst (InOrder (e ∷ es)) placed (
      Ascending-place n e rest a,
      (
        (n, e) ∷ numbered,
        (refl, number, every),
        λ k.
            with_number-place n e k rest
            ∙ ap (λ (ps : List (ℤ × Envelope)). if same_number k n then (n, e) ∷ ps else ps)
                (same k),
      ),
    )

sort_returns :
    (es : List Envelope) (ps : List (ℤ × Envelope))
    → Numbered es ps
    → (sorted : List (ℤ × Envelope)) × (sort_by_seq es ≡ ok sorted)
unfolding sort_by_seq
sort_returns [] [] h = ([], refl)
sort_returns [] (p ∷ ps) h = absurd h
sort_returns (e ∷ es) [] h = absurd h
sort_returns (e ∷ es) ((n, f) ∷ ps) (_, number, h) =
    let (rest, sorts) = sort_returns es ps h in (place n e rest, rw number (rw sorts refl))

one_numbering :
    (es : List Envelope) (ps qs : List (ℤ × Envelope)) → Numbered es ps → Numbered es qs → ps ≡ qs
one_numbering [] [] [] h k = refl
one_numbering [] (p ∷ ps) qs h k = absurd h
one_numbering [] ps (q ∷ qs) h k = absurd k
one_numbering (e ∷ es) [] qs h k = absurd h
one_numbering (e ∷ es) ps [] h k = absurd k
one_numbering (e ∷ es) ((n, f) ∷ ps) ((m, g) ∷ qs) (e1, n1, h) (e2, n2, k) =
    let number : n ≡ m = cc (n1, n2) in
    let receipt : f ≡ g = sym e1 ∙ e2 in cc (number, receipt, one_numbering es ps qs h k)

least :
    (m n : ℤ) (qs : List (ℤ × Envelope)) (p : ℤ × Envelope) (rest : List (ℤ × Envelope))
    → with_number n qs ≡ p ∷ rest
    → All (λ q. AtMost m q.0) qs
    → AtMost m n
least m n [] p rest e h = absurd (cc e)
least m n (q ∷ qs) p rest e (h, hs) = elim (Bool-cases (same_number n q.0)) [
  | inl here ↦ subst (AtMost m) (sym (same_number-true n q.0 here)) h
  | inr there ↦ least m n qs p rest (rw there at e) hs
]

-- A number that is in the list is not below its first one.
first_least :
    (n : ℤ) (ps : List (ℤ × Envelope)) (p : ℤ × Envelope) (rest : List (ℤ × Envelope))
    → Ascending ps
    → with_number n ps ≡ p ∷ rest
    → (q : ℤ × Envelope) × (qs : List (ℤ × Envelope)) × (ps ≡ q ∷ qs) × AtMost q.0 n
first_least n [] p rest a e = absurd (cc e)
first_least n (q ∷ qs) p rest (above, a) e = (
  q,
  qs,
  refl,
  elim (Bool-cases (same_number n q.0)) [
    | inl here ↦ rw (sym (same_number-true n q.0 here)) (AtMost-refl n)
    | inr there ↦ least q.0 n qs p rest (rw there at e) above
  ],
)

one_order :
    (ps qs : List (ℤ × Envelope))
    → Ascending ps
    → Ascending qs
    → ((k : ℤ) → with_number k ps ≡ with_number k qs)
    → ps ≡ qs
one_order [] [] a b h = refl
one_order [] (q ∷ qs) a b h =
    let one : with_number q.0 (q ∷ qs) ≡ q ∷ with_number q.0 qs = rw (same_number_self q.0) refl in
    absurd (cc (h q.0, one))
one_order (p ∷ ps) [] a b h =
    let one : with_number p.0 (p ∷ ps) ≡ p ∷ with_number p.0 ps = rw (same_number_self p.0) refl in
    absurd (cc (h p.0, one))
one_order (p ∷ ps) (q ∷ qs) a b h =
    let one : with_number p.0 (p ∷ ps) ≡ p ∷ with_number p.0 ps = rw (same_number_self p.0) refl in
    let two : with_number q.0 (q ∷ qs) ≡ q ∷ with_number q.0 qs = rw (same_number_self q.0) refl in
    let (q', qs', e1, below1) = first_least p.0 (q ∷ qs) p _ b (sym (h p.0) ∙ one) in
    let (p', ps', e2, below2) = first_least q.0 (p ∷ ps) q _ a (h q.0 ∙ two) in
    let q_first : q' ≡ q = cc e1 in
    let p_first : p' ≡ p = cc e2 in
    let number : q.0 ≡ p.0 =
      AtMost-both q.0 p.0 (subst (λ (x : ℤ × Envelope). AtMost x.0 p.0) q_first below1)
        (subst (λ (x : ℤ × Envelope). AtMost x.0 q.0) p_first below2) in
    let heads : p ∷ with_number p.0 ps ≡ q ∷ with_number q.0 qs =
      sym one ∙ h p.0 ∙ ap (λ k. with_number k (q ∷ qs)) (sym number) ∙ two in
    let first : p ≡ q = cc heads in
    let rest = one_order ps qs a.1 b.1 (λ k. tails k p q ps qs first (h k)) in
    ap₂ (λ (x : ℤ × Envelope) (xs : List (ℤ × Envelope)). x ∷ xs) first rest
  where
    tails :
        (k : ℤ) (p q : ℤ × Envelope) (ps qs : List (ℤ × Envelope))
        → p ≡ q
        → with_number k (p ∷ ps) ≡ with_number k (q ∷ qs)
        → with_number k ps ≡ with_number k qs
    tails k p q ps qs e h = elim (Bool-cases (same_number k p.0)) [
      | inl here ↦
          let there : same_number k q.0 ≡ true =
            ap (λ (x : ℤ × Envelope). same_number k x.0) (sym e) ∙ here in
          cc (rw (here, there) at h)
      | inr here ↦
          let there : same_number k q.0 ≡ false =
            ap (λ (x : ℤ × Envelope). same_number k x.0) (sym e) ∙ here in
          rw (here, there) at h
    ]

-- The list that the sort returns is the one list in this order.
pub sorted_iff :
    (es : List Envelope) (sorted : List (ℤ × Envelope))
    → (sort_by_seq es ≡ ok sorted) ↔ InOrder es sorted
sorted_iff es sorted = (
  sort-InOrder es sorted,
  λ (a, (ps, every, same)).
      let (sorted', sorts) = sort_returns es ps every in
      let (b, (qs, every', same')) = sort-InOrder es sorted' sorts in
      let numbering = one_numbering es qs ps every' every in
      sorts
      ∙ ap ok (
          one_order sorted' sorted b a
            (λ k. same' k ∙ ap (with_number k) numbering ∙ sym (same k))),
)
