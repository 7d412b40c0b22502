-- ===== src/Tokens/SingleUse.antt =====
-- The replay cache of gateway/middleware.py: what a used `jti` leaves in it.
use agent_authorization_gate.Base.{
  ℕ, ◌+◌, ◌≤◌, ◌<◌, ◌≡◌, ◌≢◌, refl, ap, ◌∙◌, true, false, Bool-cases, ◌⊎◌, inl, inr, Option, some,
  Result, ok, Str, str_eq, str_eq_iff, str_eq_refl, arith, ltb, leb, length, subst, if◌then◌else◌,
}
use agent_authorization_gate.Base.Dict.{Dict, lookup, insert, contains, lookup-insert, lookup-keep}
use agent_authorization_gate.Tokens.Middleware.{
  TokenError, jti_cache_max, clean_jti_cache, cached_until, use_token_jti,
}

-- The `jti` is in the cache until the token has expired, or the token has expired.
abbrev pub Spent : Str → ℕ → ℕ → Dict ℕ → Type 0
Spent jti exp now cache = ((e : ℕ) × (lookup jti cache ≡ some e) × (exp + 5 ≤ e)) ⊎ (exp + 5 < now)

clean-Spent :
    (jti : Str) (exp before now : ℕ) (cache : Dict ℕ)
    → before ≤ now
    → Spent jti exp before cache
    → Spent jti exp now (clean_jti_cache now cache)
unfolding clean_jti_cache
clean-Spent jti exp before now cache le (inr late) = inr (omega arith)
clean-Spent jti exp before now cache le (inl (e, h, old)) = elim (Bool-cases (leb now e)) [
  | inr gone ↦ inr (ground arith)
  | inl kept ↦ inl (e, lookup-keep (λ v. leb now v) jti e cache h kept, old)
]

bound-contains :
    (k : Str) (e : ℕ) (cache : Dict ℕ) → lookup k cache ≡ some e → contains k cache ≡ true
bound-contains k e cache h = rw (h, contains) refl

-- The entry of another `jti` spends nothing.
insert-Spent :
    (jti other : Str) (exp now v : ℕ) (cache : Dict ℕ)
    → contains other cache ≡ false
    → Spent jti exp now cache
    → Spent jti exp now (insert other v cache)
insert-Spent jti other exp now v cache fresh (inr late) = inr late
insert-Spent jti other exp now v cache fresh (inl (e, h, old)) =
    elim (Bool-cases (str_eq other jti)) [
      | inl same ↦ cc (fresh, bound-contains jti e cache h, (str_eq_iff other jti).0 same)
      | inr apart ↦ inl (e, lookup-insert other jti v cache ∙ rw apart h, old)
    ]

-- The cut of a cache that has grown too large.
cut-Spent :
    (jti : Str) (exp now : ℕ) (cache : Dict ℕ)
    → Spent jti exp now cache
    → Spent jti exp now
        (if ltb jti_cache_max (length cache) then clean_jti_cache now cache else cache)
cut-Spent jti exp now cache s = elim (Bool-cases (ltb jti_cache_max (length cache))) [
  | inl large ↦ rw large (clean-Spent jti exp now now cache (omega arith) s)
  | inr small ↦ rw small s
]

pub use-Spent :
    (jti other : Str) (exp before now : ℕ) (until : Option ℕ) (cache : Dict ℕ)
    → before ≤ now
    → Spent jti exp before cache
    → Spent jti exp now (use_token_jti other until now cache).1
unfolding use_token_jti
use-Spent jti other exp before now until cache le s =
    let cleaned = clean_jti_cache now cache in
    let spent = clean-Spent jti exp before now cache le s in
    elim (Bool-cases (contains other cleaned)) [
      | inl used ↦ rw used spent
      | inr fresh ↦ rw fresh (
          cut-Spent jti exp now (insert other (cached_until now until) cleaned)
            (insert-Spent jti other exp now (cached_until now until) cleaned fresh spent))
    ]

-- A use that returned has spent the `jti`.
pub use-spends :
    (jti : Str) (exp now : ℕ) (cache cache' : Dict ℕ) (u : Unit)
    → use_token_jti jti (some exp) now cache ≡ (ok u, cache')
    → Spent jti exp now cache'
unfolding use_token_jti cached_until
use-spends jti exp now cache cache' u h =
    let cleaned = clean_jti_cache now cache in
    elim (Bool-cases (contains jti cleaned)) [
      | inl used ↦ cc (rw used at h)
      | inr fresh ↦
          let put = insert jti (exp + 5) cleaned in
          let bound : lookup jti put ≡ some (exp + 5) =
            lookup-insert jti jti (exp + 5) cleaned ∙ rw (str_eq_refl jti) refl in
          let spent = cut-Spent jti exp now put (inl (exp + 5, bound, omega arith)) in
          let same = ap (λ (p : Result {0, 0} TokenError Unit × Dict ℕ). p.1) (rw fresh at h) in
          subst (Spent jti exp now) same spent
    ]

-- A spent `jti` of a token that has not expired is a replay.
pub use-replay :
    (jti : Str) (exp now : ℕ) (until : Option ℕ) (cache cache' : Dict ℕ) (u : Unit)
    → now ≤ exp + 5
    → Spent jti exp now cache
    → use_token_jti jti until now cache ≢ (ok u, cache')
unfolding use_token_jti
use-replay jti exp now until cache cache' u le s h =
    elim (clean-Spent jti exp now now cache (omega arith) s) [
      | inr late ↦ omega arith
      | inl (e, l, old) ↦ cc (rw (bound-contains jti e (clean_jti_cache now cache) l) at h)
    ]
