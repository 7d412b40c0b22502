-- ===== src/Identity/Spent.antt =====
-- The replay cache of gateway/identity.py: what a used `jti` leaves in it.
use agent_authorization_gate.Base.{
  ℕ, ◌+◌, ◌≤◌, ◌<◌, ◌≡◌, ◌≢◌, refl, ap, ◌∙◌, true, Bool-cases, ◌⊎◌, inl, inr, some, Result, ok, Str,
  str_eq, str_eq_iff, str_eq_refl, arith, leb,
}
use agent_authorization_gate.Base.Dict.{
  Dict, lookup, insert, keep, contains, lookup-insert, lookup-keep,
}
use agent_authorization_gate.Identity.Proofs.{Claims, ProofError, use_jti}

-- The `jti` is in the cache until the proof has expired, or the proof has expired.
abbrev pub Spent : Claims → ℕ → Dict ℕ → Type 0
Spent c now cache =
    ((e : ℕ) × (lookup c.jti cache ≡ some e) × (c.iat + 30 ≤ e)) ⊎ (c.iat + 30 < now)

pub bound-contains :
    (k : Str) (e : ℕ) (cache : Dict ℕ) → lookup k cache ≡ some e → contains k cache ≡ true
bound-contains k e cache h = rw (h, contains) refl

-- A call leaves a spent proof spent.
pub use_jti-Spent {ℓ} :
    {A : Type ℓ} (agent : A) (jti : Str) (c : Claims) (before now : ℕ) (cache : Dict ℕ)
    → before ≤ now
    → Spent c before cache
    → Spent c now (use_jti agent jti now cache).1
unfolding use_jti
use_jti-Spent agent jti c before now cache le (inr late) = inr (omega arith)
use_jti-Spent agent jti c before now cache le (inl (e, h, old)) =
    elim (Bool-cases (contains jti cache)) [
      | inl used ↦ rw used (inl (e, h, old))
      | inr fresh ↦ elim (Bool-cases (leb now e)) [
        | inr gone ↦ inr (ground arith)
        | inl kept ↦ elim (Bool-cases (str_eq jti c.jti)) [
          | inl same ↦ cc (fresh, bound-contains c.jti e cache h, (str_eq_iff jti c.jti).0 same)
          | inr other ↦
              let stays : lookup c.jti (insert jti (now + 30) cache) ≡ some e =
                lookup-insert jti c.jti (now + 30) cache ∙ rw other h in
              rw fresh (
                inl (
                  e,
                  lookup-keep (λ v. leb now v) c.jti e (insert jti (now + 30) cache) stays kept,
                  old,
                ))
        ]
      ]
    ]

-- A call that returned has put its `jti` into the cache.
pub use_jti-spends {ℓ} :
    {A : Type ℓ} (agent a : A) (c : Claims) (now : ℕ) (cache cache' : Dict ℕ)
    → c.iat ≤ now
    → use_jti agent c.jti now cache ≡ (ok a, cache')
    → Spent c now cache'
unfolding use_jti
use_jti-spends agent a c now cache cache' le h = elim (Bool-cases (contains c.jti cache)) [
  | inl used ↦ cc (rw used at h)
  | inr fresh ↦
      let bound : lookup c.jti (insert c.jti (now + 30) cache) ≡ some (now + 30) =
        lookup-insert c.jti c.jti (now + 30) cache ∙ rw (str_eq_refl c.jti) refl in
      let kept =
        lookup-keep (λ v. leb now v) c.jti (now + 30) (insert c.jti (now + 30) cache) bound
          (ground arith) in
      let same : keep (λ v. leb now v) (insert c.jti (now + 30) cache) ≡ cache' =
        ap (λ (p : Result ProofError _ × Dict ℕ). p.1) (rw fresh at h) in
      inl (now + 30, rw same at kept, omega arith)
]

pub use_jti-replay {ℓ} :
    {A : Type ℓ} (agent a : A) (jti : Str) (now : ℕ) (cache cache' : Dict ℕ)
    → contains jti cache ≡ true
    → use_jti agent jti now cache ≢ (ok a, cache')
unfolding use_jti
use_jti-replay agent a jti now cache cache' used h = cc (rw used at h)
