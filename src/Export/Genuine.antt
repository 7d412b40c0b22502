-- ===== src/Export/Genuine.antt =====
-- The keys and the inclusion proofs in a packet that gateway/api.py exports.
use agent_authorization_gate.Base.{
  suc, ◌≡◌, refl, ap, true, false, Bool-cases, ◌⊎◌, inl, inr, Option, none, some, List, [], ◌∷◌, ok,
  Str, Bytes, All, codes, str_eq, str_eq_iff, str_eq_refl, str_ne,
}
use agent_authorization_gate.Base.Dict.{Dict, insert}
use agent_authorization_gate.Canonical.{Value, canonicalize}
use agent_authorization_gate.Verify.{Check, Jwk, same_text}
use agent_authorization_gate.Verify.Accepted.{Signs, signer}
use agent_authorization_gate.Receipts.Issue.{Issued, done, step, sign_decision-ok, next_seq, signed}
use agent_authorization_gate.Packet.{text_or_empty, resolve_key}
use agent_authorization_gate.Packet.Passing.{Genuine}
use agent_authorization_gate.Export.{select, collect_keys, label, Query, envelopes}
use agent_authorization_gate.Receipts.{
  envelope_dict, Receipt, body_dict, Request, ReceiptChain, unsigned,
}
use agent_authorization_gate.Export.Selected.{chosen, select-step, dropped}

same_text_iff : (o : Option Str) (s : Str) → same_text o (some s) ≡ true → o ≡ some s
unfolding same_text
same_text_iff none s h = cc
same_text_iff (some t) s h = ap some ((str_eq_iff t s).0 h)

-- A key with the gateway's `kid` stands under the label of the gateway only.
abbrev OwnLabel : Str → Dict Jwk → Type 0
OwnLabel own d = All (λ p. (same_text p.1.kid (some own) ≡ false) ⊎ (p.0 ≡ codes "gateway")) d

insert-OwnLabel :
    (own label : Str) (k : Jwk) (d : Dict Jwk)
    → (same_text k.kid (some own) ≡ false) ⊎ (label ≡ codes "gateway")
    → OwnLabel own d
    → OwnLabel own (insert label k d)
unfolding insert
insert-OwnLabel own label k [] h all_own = (h, tt)
insert-OwnLabel own label k ((j, w) ∷ d) h (first, rest) = elim (Bool-cases (str_eq j label)) [
  | inl same ↦ let e : j ≡ label = (str_eq_iff j label).0 same in rw same (rw (← e) at h, rest)
  | inr other ↦ rw other (first, insert-OwnLabel own label k d h rest)
]

text_of : (o : Option Str) (s : Str) → o ≡ some s → text_or_empty o ≡ s
text_of o s h = rw h refl

own_or_other :
    (own : Str) (k : Jwk)
    → (same_text k.kid (some own) ≡ false) ⊎ (label own (text_or_empty k.kid) ≡ codes "gateway")
own_or_other own k = elim (Bool-cases (same_text k.kid (some own))) [
  | inr other ↦ inl other
  | inl same ↦
      let e = text_of k.kid own (same_text_iff k.kid own same) in
      inr (rw e (rw (str_eq_refl own) refl))
]

collect_keys-OwnLabel :
    (own : Str) (keys : List Jwk) (d : Dict Jwk)
    → OwnLabel own d
    → OwnLabel own (collect_keys own keys d)
unfolding collect_keys
collect_keys-OwnLabel own [] d h = h
collect_keys-OwnLabel own (k ∷ keys) d h =
    collect_keys-OwnLabel own keys _ (elim (Bool-cases (str_eq (text_or_empty k.kid) [])) [
      | inl no_kid ↦ rw no_kid h
      | inr named ↦
          rw named
            (insert-OwnLabel own (label own (text_or_empty k.kid)) k d (own_or_other own k) h)
    ])

resolve-own :
    (own x : Str) (d : Dict Jwk)
    → OwnLabel own d
    → resolve_key own (insert (codes "gateway") (signer own x) d) ≡ some (signer own x)
unfolding resolve_key insert same_text
resolve-own own x [] h = rw (str_eq_refl own) refl
resolve-own own x ((j, w) ∷ d) (first, rest) = elim (Bool-cases (str_eq j (codes "gateway"))) [
  | inl same ↦ rw same (rw (str_eq_refl own) refl)
  | inr other ↦ elim first [
    | inl differs ↦ rw other (rw (differs, resolve_key) (resolve-own own x d rest))
    | inr same ↦ absurd (str_ne j (codes "gateway") other same)
  ]
]

-- The gateway's `kid` selects its own key, whatever keys the store holds.
pub resolve-exported :
    (own x : Str) (keys : List Jwk)
    → resolve_key own (insert (codes "gateway") (signer own x) (collect_keys own keys []))
      ≡ some (signer own x)
resolve-exported own x keys =
    resolve-own own x (collect_keys own keys []) (collect_keys-OwnLabel own keys [] tt)

module _ (sha256 : Bytes → Bytes) (sign : Bytes → Str) (check : Str → Str → Bytes → Check) (x : Str)
    (signs : Signs sign check x) (keys : Dict Jwk) where
  signed-Genuine :
      (ts : Str) (q : Request) (c : ReceiptChain) (b : Bytes)
      → canonicalize (Value.dict (body_dict (unsigned ts q (next_seq c)))) ≡ ok b
      → resolve_key c.kid keys ≡ some (signer c.kid x)
      → Genuine sha256 check keys (envelope_dict (signed sha256 sign ts q c b))
  unfolding envelope_dict body_dict
  signed-Genuine ts q c b canon own = (b, canon, refl, (signer c.kid x, own, x, refl, signs b))

  -- Each selected receipt is genuine.
  pub chosen-Genuine :
      (agent : Receipt → Option Str) (query : Query) {c d : ReceiptChain} {rs : List Receipt}
      → resolve_key c.kid keys ≡ some (signer c.kid x)
      → Issued sha256 sign c rs d
      → All (Genuine sha256 check keys) (envelopes (chosen sha256 sign agent query rs))
  unfolding select
  chosen-Genuine agent query own done = tt
  chosen-Genuine agent query own (step {c} {c'} {d} {r} {rs} ts q h i) =
      let (b, e, f, g) = sign_decision-ok sha256 sign ts q c c' r h in
      let kid : c'.kid ≡ c.kid = ap (λ (y : ReceiptChain). y.kid) g in
      let rest = chosen-Genuine agent query (rw kid own) i in
      let first : Genuine sha256 check keys (envelope_dict r) =
        rw f (signed-Genuine ts q c b e own) in
      rw (select-step sha256 sign agent query ts q c c' r rs h)
        (elim (Bool-cases (dropped sha256 sign query (suc c.seq) (agent r))) [
          | inl out ↦ rw out rest
          | inr kept ↦ rw kept (first, rest)
        ])
