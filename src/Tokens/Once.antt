-- ===== src/Tokens/Once.antt =====
-- No endpoint of gateway/middleware.py accepts a token again.
use agent_authorization_gate.Base.{
  ℕ, ◌+◌, ◌≤◌, ◌≡◌, ◌≢◌, refl, sym, ap, ◌∙◌, subst, Option, some, List, Result, ok, Str, drop,
}
use agent_authorization_gate.Base.Dict.{Dict}
use agent_authorization_gate.Tokens.Middleware.{
  TokenClaims, Decoded, claims, TokenError, use_token_jti, check_replay, fresh_jti,
}
use agent_authorization_gate.Tokens.SingleUse.{use-spends, use-replay}
use agent_authorization_gate.Tokens.Requests.{
  verify-Accepted, Request, verify_request, cache_after, Ordered, requests-Spent,
}

check_replay-named :
    (d : TokenClaims) (jti : Str) (now : ℕ) (cache : Dict ℕ)
    → fresh_jti d.jti ≡ some jti
    → check_replay d now cache ≡ use_token_jti jti d.exp now cache
unfolding check_replay
check_replay-named d jti now cache e = rw (e, check_replay) refl

module _ {ℓ} {K : Type ℓ} (decode : Str → K → ℕ → Decoded)
    (same_claims : (token : Str) (k k' : K) (t t' : ℕ) (c c' : TokenClaims)
      → decode token k t ≡ claims c
      → decode token k' t' ≡ claims c'
      → c ≡ c')
    (in_time : (token : Str) (k : K) (t : ℕ) (c : TokenClaims) (exp : ℕ)
      → decode token k t ≡ claims c
      → c.exp ≡ some exp
      → t ≤ exp + 5) where
  -- After a request with a token that has a `jti` and an `exp` is accepted, no later request with that
  -- token is accepted by any endpoint, whatever requests come in between, if the clock does not run
  -- backwards, a token always decodes to the same claims, and no token decodes after its `exp` and the
  -- leeway of 5 seconds.
  pub token_accepted_once :
      (first last : Request decode) (requests : List (Request decode)) (cache cache' : Dict ℕ)
      (c c' : TokenClaims) (jti : Str) (exp : ℕ)
      → last.header ≡ first.header
      → fresh_jti c.jti ≡ some jti
      → c.exp ≡ some exp
      → verify_request decode first cache ≡ (ok c, cache')
      → Ordered decode first.at requests last.at
      → (verify_request decode last (cache_after decode requests cache')).0 ≢ ok c'
  token_accepted_once first last requests cache cache' c c' jti exp same_header named dated h o h' =
      let cache2 = cache_after decode requests cache' in
      let whole : verify_request decode last cache2
          ≡ (ok c', (verify_request decode last cache2).1) =
        ap (λ (x : Result TokenError TokenClaims). (x, (verify_request decode last cache2).1)) h' in
      let ((k, d), (u, r)) =
        verify-Accepted decode first.action first.pattern first.header first.keys first.at cache
          cache' c h in
      let ((k', d'), (u', r')) =
        verify-Accepted decode last.action last.pattern last.header last.keys last.at cache2
          (verify_request decode last cache2).1 c' whole in
      let d'' : decode (drop 7 first.header) k' last.at ≡ claims c' =
        subst (λ x. decode (drop 7 x) k' last.at ≡ claims c') same_header d' in
      let same : c ≡ c' = same_claims (drop 7 first.header) k k' first.at last.at c c' d d'' in
      let named' : fresh_jti c'.jti ≡ some jti =
        subst (λ (x : TokenClaims). fresh_jti x.jti ≡ some jti) same named in
      let dated' : c'.exp ≡ some exp = subst (λ (x : TokenClaims). x.exp ≡ some exp) same dated in
      let use1 = sym (check_replay-named c jti first.at cache named) ∙ r in
      let spent = use-spends jti exp first.at cache cache' u (
        subst (λ (x : Option ℕ). use_token_jti jti x first.at cache ≡ (ok u, cache')) dated use1) in
      let timely = in_time (drop 7 first.header) k' last.at c' exp d'' dated' in
      use-replay jti exp last.at c'.exp cache2 (verify_request decode last cache2).1 u' timely
        (requests-Spent decode jti exp first.at last.at requests cache' o spent)
        (sym (check_replay-named c' jti last.at cache2 named') ∙ r')
