-- ===== src/Probes/Http.antt =====
-- The probes of gateway/verification/_http.py over HTTP.
use agent_authorization_gate.Base.{
  ℕ, ◌||◌, Option, none, some, List, [], ◌∷◌, Result, ok, err, Str, Bytes, codes, if◌then◌else◌,
  ◌==◌,
}
use agent_authorization_gate.Base.Dict.{Dict, lookup}
use agent_authorization_gate.Base.Int.{pos}
use agent_authorization_gate.Canonical.{Value}
use agent_authorization_gate.Probes.{
  failed, Auth, Reason, Network, Reply, ProbeResult, Raised, by_status, response, url_detail,
  no_credentials, not_found, Url, anonymous, returned, verified, Moment, bearer, timed_out,
  get_text, basic, unreachable, probe_error, is_empty_text, timeout, headers, raised,
}
use agent_authorization_gate.Probes.Aws.{sign_aws_v4}

-- The headers of `_get_gcp_identity_headers`.
abbrev pub identity_auth : Option Str → Auth
identity_auth none = anonymous
identity_auth (some token) = bearer token

-- `probe_url`
unfoldable pub probe_url : Network → Str → Str → List ℕ → ProbeResult
probe_url net url method statuses = by_status statuses returned (url_detail url) (
    net.http (record { method = method; url = url; auth = identity_auth (net.identity_token url) }))

-- 404 is told apart from the other statuses that do not count.
unfoldable pub api_refusal : ℕ → Reason
api_refusal n = if n == 404 then not_found n else returned n

unfoldable pub no_credentials_result : Dict Value → ProbeResult
no_credentials_result details = record {
  status = failed;
  reason = no_credentials;
  details = details;
}

-- `probe_gcp_api`
unfoldable pub probe_gcp_api : Network → Str → List ℕ → ProbeResult
probe_gcp_api net url statuses = elim net.access_token [
  | none ↦ no_credentials_result (url_detail url)
  | some [] ↦ no_credentials_result (url_detail url)
  | some (c ∷ token) ↦
      by_status statuses api_refusal (url_detail url)
        (net.http (record { method = codes "GET"; url = url; auth = bearer (c ∷ token) }))
]

-- 404 and 403 are told apart from the other statuses that do not count.
unfoldable pub aws_refusal : ℕ → Reason
aws_refusal n = if (n == 404) || (n == 403) then not_found n else returned n

-- `probe_with_bearer`
unfoldable pub probe_with_bearer : Network → Str → Str → Str → List ℕ → ProbeResult
probe_with_bearer net url token method statuses =
    by_status statuses returned []
      (net.http (record { method = method; url = url; auth = bearer token }))

-- `probe_with_basic_auth`
unfoldable pub probe_with_basic_auth : Network → Str → Str → Str → ProbeResult
probe_with_basic_auth net url username password =
    by_status (200 ∷ []) returned []
      (net.http (record { method = codes "GET"; url = url; auth = basic username password }))

-- `probe_url_unauthenticated`: any response counts.
unfoldable pub any_response : Str → Reply → ProbeResult
any_response url (response n) = record {
  status = verified;
  reason = returned n;
  details = (codes "url", Value.str url) ∷ (codes "status_code", Value.int (pos n)) ∷ [];
}
any_response url timeout = record { status = failed; reason = timed_out; details = url_detail url }
any_response url raised = record { status = failed; reason = unreachable; details = url_detail url }

unfoldable pub probe_url_unauthenticated : Network → Str → ProbeResult
probe_url_unauthenticated net url =
    any_response url (net.http (record { method = codes "HEAD"; url = url; auth = anonymous }))

module _ (sha256 : Bytes → Bytes) (hmac : Bytes → Bytes → Bytes)
    (urlparse : Str → Result Raised Url) (quote : Str → Str → Str) (upper : Str → Str) where
  -- `probe_aws_api` with both keys; signing may raise inside the `try`.
  unfoldable pub probe_signed :
      Network → Moment → Str → Str → Str → Str → Str → Option Str → Str → List ℕ → ProbeResult
  probe_signed net at url region service access_key secret_key session_token method statuses =
      elim (sign_aws_v4 sha256 hmac urlparse quote upper at method url region service access_key
        secret_key session_token) [
          | err _ ↦ record { status = failed; reason = probe_error; details = [] }
          | ok signed ↦
              by_status statuses aws_refusal []
                (net.http (record { method = method; url = url; auth = headers signed }))
        ]

  unfoldable pub probe_aws_api :
      Network → Moment → Str → Str → Str → Dict Str → Str → List ℕ → ProbeResult
  probe_aws_api net at url region service creds method statuses =
      let access_key = get_text (codes "aws_access_key_id") [] creds in
      let secret_key = get_text (codes "aws_secret_access_key") [] creds in
      if is_empty_text access_key || is_empty_text secret_key
      then no_credentials_result []
      else probe_signed net at url region service access_key secret_key
          (lookup (codes "aws_session_token") creds) method statuses
