-- ===== src/Probes/Live.antt =====
-- When a verifier of gateway/verification calls a resource verified.
use agent_authorization_gate.Base.{
  ℕ, ◌≡◌, ◌≢◌, refl, sym, ◌∙◌, true, false, ◌||◌, Bool-cases, ◌⊎◌, inl, inr, Option, Option-cases,
  List, [], ◌∷◌, Result, Result-cases, ok, Str, Bytes, codes, arith, str_eq, ◌==◌,
}
use agent_authorization_gate.Base.Dict.{Dict, lookup}
use agent_authorization_gate.Base.Int.{ℤ}
use agent_authorization_gate.Canonical.{Value}
use agent_authorization_gate.Verify.{Raised}
use agent_authorization_gate.Probes.{
  ProbeStatus, Reply, Reason, ProbeResult, verified, failed, metadata_only, skipped, timeout,
  raised, connected, by_status, Network, response, HttpRequest, accepts, returned, url_detail,
  bearer, Url, Moment, get_text, is_empty_text, headers,
}
use agent_authorization_gate.Probes.Verifiers.{ResourceType, unless_404, Outcome, is_404, api}
use agent_authorization_gate.Probes.Http.{
  probe_url_unauthenticated, any_response, probe_gcp_api, probe_with_bearer, probe_with_basic_auth,
  no_credentials_result, api_refusal, probe_aws_api, probe_signed, aws_refusal,
}
use agent_authorization_gate.Probes.Aws.{sign_aws_v4}

-- A request was answered, by a status other than 404 unless an API was asked for, at the URL if one
-- was given; or, with no URL, a connection was opened.
abbrev pub Shown : Network → ResourceType → Str → Type 0
Shown net rt url =
    ((q : HttpRequest) × (n : ℕ) × (net.http q ≡ response n)
      × ((n ≢ 404) ⊎ (rt ≡ api))
      × ((url ≡ []) ⊎ (q.url ≡ url)))
    ⊎ ((url ≡ []) × ((host : Str) × (port : ℤ) × (net.connect host port ≡ connected)))

abbrev pub Live : Network → ResourceType → Str → Outcome → Type 0
Live net rt url o = (r : ProbeResult) → o ≡ ok r → r.status ≡ verified → Shown net rt url

-- A status that counts comes from a response.
by_status-verified :
    (statuses : List ℕ) (refusal : ℕ → Reason) (details : Dict Value) (reply : Reply)
    → (by_status statuses refusal details reply).status ≡ verified
    → (n : ℕ) × (reply ≡ response n) × (accepts statuses n ≡ true)
unfolding by_status
by_status-verified statuses refusal details (response n) v =
    elim (Bool-cases (accepts statuses n)) [
      | inl held ↦ (n, refl, held)
      | inr other ↦ let w = rw other at v in cc
    ]
by_status-verified statuses refusal details timeout v = cc
by_status-verified statuses refusal details raised v = cc

module _ (net : Network) (rt : ResourceType) where
  -- A probe whose status counts shows the resource, at the URL that was given if it is that of the
  -- request.
  pub by_status-Shown :
      (statuses : List ℕ) (refusal : ℕ → Reason) (details : Dict Value) (q : HttpRequest)
      (url : Str)
      → accepts statuses 404 ≡ false
      → (url ≡ []) ⊎ (q.url ≡ url)
      → (by_status statuses refusal details (net.http q)).status ≡ verified
      → Shown net rt url
  by_status-Shown statuses refusal details q url absent at_url v =
      let (n, answered, held) = by_status-verified statuses refusal details (net.http q) v in
      inl (q, n, answered, inl (λ is. cc (rw is at held, absent)), at_url)

  pub gcp-Shown :
      (url : Str) (statuses : List ℕ)
      → accepts statuses 404 ≡ false
      → (probe_gcp_api net url statuses).status ≡ verified
      → Shown net rt []
  unfolding probe_gcp_api no_credentials_result
  gcp-Shown url statuses absent v = elim (Option-cases net.access_token) [
    | inl missing ↦ let w = rw (missing, probe_gcp_api) at v in cc
    | inr ([], empty) ↦ let w = rw (empty, probe_gcp_api) at v in cc
    | inr (c ∷ token, found) ↦
        by_status-Shown statuses api_refusal (url_detail url)
          (record { method = codes "GET"; url = url; auth = bearer (c ∷ token) }) [] absent
          (inl refl) (rw (found, probe_gcp_api) at v)
  ]

  pub bearer-Shown :
      (url token method : Str) (statuses : List ℕ)
      → accepts statuses 404 ≡ false
      → (probe_with_bearer net url token method statuses).status ≡ verified
      → Shown net rt []
  unfolding probe_with_bearer
  bearer-Shown url token method statuses absent v =
      by_status-Shown statuses returned [] _ [] absent (inl refl) v

  pub basic-Shown :
      (url username password : Str)
      → (probe_with_basic_auth net url username password).status ≡ verified
      → Shown net rt []
  unfolding probe_with_basic_auth accepts
  basic-Shown url username password v =
      by_status-Shown (200 ∷ []) returned [] _ [] refl (inl refl) v

  any_response-verified :
      (url : Str) (reply : Reply)
      → (any_response url reply).status ≡ verified
      → (n : ℕ) × (reply ≡ response n)
        × (is_404 (lookup (codes "status_code") (any_response url reply).details) ≡ (n == 404))
  unfolding any_response lookup str_eq is_404
  any_response-verified url (response n) v = (n, refl, refl)
  any_response-verified url timeout v = cc
  any_response-verified url raised v = cc

  -- Any response shows an API; a bucket is shown by one that is not 404.
  pub unauthenticated-Shown :
      (url : Str)
      → rt ≡ api
      → (probe_url_unauthenticated net url).status ≡ verified
      → Shown net rt []
  unfolding probe_url_unauthenticated
  unauthenticated-Shown url is_api v =
      let (n, answered, _) = any_response-verified url _ v in
      inl (_, n, answered, inr is_api, inl refl)

  unless_404-verified :
      (extra : List (Str × Str)) (r : ProbeResult)
      → (unless_404 extra r).status ≡ verified
      → (r.status ≡ verified) × (is_404 (lookup (codes "status_code") r.details) ≡ false)
  unfolding unless_404
  unless_404-verified extra r v = by_cases r.status refl
    where
      by_cases :
          (s : ProbeStatus)
          → r.status ≡ s
          → (r.status ≡ verified) × (is_404 (lookup (codes "status_code") r.details) ≡ false)
      by_cases verified e = elim (Bool-cases (is_404 (lookup (codes "status_code") r.details))) [
        | inr other ↦ (e, other)
        | inl missing ↦ let w = rw missing at (rw (e, unless_404) at v) in cc
      ]
      by_cases metadata_only e = let w = rw (e, unless_404) at v in cc
      by_cases failed e = let w = rw (e, unless_404) at v in cc
      by_cases skipped e = let w = rw (e, unless_404) at v in cc

  pub unless_404-Shown :
      (extra : List (Str × Str)) (url : Str)
      → (unless_404 extra (probe_url_unauthenticated net url)).status ≡ verified
      → Shown net rt []
  unfolding probe_url_unauthenticated
  unless_404-Shown extra url v =
      let (ver, other) = unless_404-verified extra _ v in
      let (n, answered, same) = any_response-verified url _ ver in
      let differs : (n == 404) ≡ false = sym same ∙ other in
      inl (_, n, answered, inl (λ is. ground arith), inl refl)

module _ (sha256 : Bytes → Bytes) (hmac : Bytes → Bytes → Bytes)
    (urlparse : Str → Result Raised Url) (quote : Str → Str → Str) (upper : Str → Str)
    (net : Network) (rt : ResourceType) where
  signed-Shown :
      (at : Moment) (url region service access_key secret_key : Str) (token : Option Str)
      (method : Str) (statuses : List ℕ)
      → accepts statuses 404 ≡ false
      → (probe_signed sha256 hmac urlparse quote upper net at url region service access_key
          secret_key token method statuses).status
        ≡ verified
      → Shown net rt []
  unfolding probe_signed
  signed-Shown at url region service access_key secret_key token method statuses absent v =
      let signed =
        sign_aws_v4 sha256 hmac urlparse quote upper at method url region service access_key
          secret_key token in
      elim (Result-cases signed) [
        | inr (e, unsigned) ↦ let w = rw (unsigned, probe_signed) at v in cc
        | inl (h, headed) ↦
            by_status-Shown net rt statuses aws_refusal []
              (record { method = method; url = url; auth = headers h }) [] absent (inl refl)
              (rw (headed, probe_signed) at v)
      ]

  pub aws-Shown :
      (at : Moment) (url region service : Str) (creds : Dict Str) (method : Str) (statuses : List ℕ)
      → accepts statuses 404 ≡ false
      → (probe_aws_api sha256 hmac urlparse quote upper net at url region service creds method
          statuses).status
        ≡ verified
      → Shown net rt []
  unfolding probe_aws_api no_credentials_result
  aws-Shown at url region service creds method statuses absent v =
      let access_key = get_text (codes "aws_access_key_id") [] creds in
      let secret_key = get_text (codes "aws_secret_access_key") [] creds in
      elim (Bool-cases (is_empty_text access_key || is_empty_text secret_key)) [
        | inl missing ↦ let w = rw missing at v in cc
        | inr given ↦
            signed-Shown at url region service access_key secret_key _ method statuses absent
              (rw given at v)
      ]
