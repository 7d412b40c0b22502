-- ===== src/Probes/Unprobed.antt =====
-- When a verifier of gateway/verification calls a resource declared only, or passes it over.
use agent_authorization_gate.Base.{
  ℕ, ◌≡◌, refl, Bool, true, false, ◌||◌, Bool-cases, ◌⊎◌, inl, inr, Option, none, some, List, [],
  ◌∷◌, Result, Result-cases, ok, err, ◌>>=◌, Str, Bytes, codes, subst,
}
use agent_authorization_gate.Base.Dict.{Dict, lookup}
use agent_authorization_gate.Base.Int.{ℤ}
use agent_authorization_gate.Canonical.{Value}
use agent_authorization_gate.Verify.{Raised}
use agent_authorization_gate.Probes.{
  Reply, Reason, ProbeResult, verified, failed, metadata_only, skipped, timeout, raised, connected,
  other_error, by_status, tcp_result, response, TcpReply, Url, accepts, Network, tcp_timeout,
  Moment, get_text, connection_refused, os_error, is_empty_text,
}
use agent_authorization_gate.Probes.Verifiers.{
  first_of, when, Outcome, unless_404, is_404, with_details_if_ok,
}
use agent_authorization_gate.Probes.Http.{
  probe_aws_api, probe_gcp_api, any_response, no_credentials_result, probe_signed, api_refusal,
  aws_refusal,
}
use agent_authorization_gate.Probes.Aws.{sign_aws_v4}

-- The result of a live probe.
abbrev pub Probed : ProbeResult → Type 0
Probed r = (r.status ≡ verified) ⊎ (r.status ≡ failed)

abbrev pub Unprobed : ProbeResult → Type 0
Unprobed r = (r.status ≡ metadata_only) ⊎ (r.status ≡ skipped)

pub by_status-Probed :
    (statuses : List ℕ) (refusal : ℕ → Reason) (details : Dict Value) (reply : Reply)
    → Probed (by_status statuses refusal details reply)
unfolding by_status
by_status-Probed statuses refusal details (response n) = elim (Bool-cases (accepts statuses n)) [
  | inl held ↦ rw held (inl refl)
  | inr other ↦ rw other (inr refl)
]
by_status-Probed statuses refusal details timeout = inr refl
by_status-Probed statuses refusal details raised = inr refl

pub any_response-Probed : (url : Str) (reply : Reply) → Probed (any_response url reply)
unfolding any_response
any_response-Probed url (response n) = inl refl
any_response-Probed url timeout = inr refl
any_response-Probed url raised = inr refl

pub unless_404-Probed :
    (extra : List (Str × Str)) (r : ProbeResult) → Probed r → Probed (unless_404 extra r)
unfolding unless_404
unless_404-Probed extra r (inr f) = rw (f, unless_404) (inr f)
unless_404-Probed extra r (inl v) =
    elim (Bool-cases (is_404 (lookup (codes "status_code") r.details))) [
      | inl missing ↦ rw (v, unless_404) (rw missing (inr refl))
      | inr other ↦ rw (v, unless_404) (rw other (inl v))
    ]

pub gcp-Probed :
    (net : Network) (url : Str) (statuses : List ℕ) → Probed (probe_gcp_api net url statuses)
unfolding probe_gcp_api no_credentials_result
gcp-Probed net url statuses = by_token net.access_token refl
  where
    by_token : (t : Option Str) → net.access_token ≡ t → Probed (probe_gcp_api net url statuses)
    by_token none e = rw (e, probe_gcp_api) (inr refl)
    by_token (some []) e = rw (e, probe_gcp_api) (inr refl)
    by_token (some (c ∷ token)) e =
        rw (e, probe_gcp_api) (by_status-Probed statuses api_refusal _ _)

pub aws-Probed :
    (sha256 : Bytes → Bytes) (hmac : Bytes → Bytes → Bytes) (urlparse : Str → Result Raised Url)
    (quote : Str → Str → Str) (upper : Str → Str) (net : Network) (at : Moment)
    (url region service : Str) (creds : Dict Str) (method : Str) (statuses : List ℕ)
    → Probed (
        probe_aws_api sha256 hmac urlparse quote upper net at url region service creds method
          statuses)
unfolding probe_aws_api probe_signed no_credentials_result
aws-Probed sha256 hmac urlparse quote upper net at url region service creds method statuses =
    let access_key = get_text (codes "aws_access_key_id") [] creds in
    let secret_key = get_text (codes "aws_secret_access_key") [] creds in
    let signed =
      sign_aws_v4 sha256 hmac urlparse quote upper at method url region service access_key
        secret_key (lookup (codes "aws_session_token") creds) in
    elim (Bool-cases (is_empty_text access_key || is_empty_text secret_key)) [
      | inl missing ↦ rw missing (inr refl)
      | inr given ↦ rw given (elim (Result-cases signed) [
        | inr (e, unsigned) ↦ rw (unsigned, probe_signed) (inr refl)
        | inl (h, headed) ↦ rw (headed, probe_signed) (by_status-Probed statuses aws_refusal _ _)
      ])
    ]

-- Where the first outcome is no result of a probe, the second is the same.
abbrev pub Same : Outcome → Outcome → Type 0
Same o o' = (r : ProbeResult) → o ≡ ok r → Unprobed r → o' ≡ ok r

abbrev pub SameBranch : Option Outcome → Option Outcome → Type 0
SameBranch none none = Unit {0}
SameBranch none (some _) = ⊥
SameBranch (some _) none = ⊥
SameBranch (some o) (some o') = Same o o'

abbrev pub SameBranches : List (Option Outcome) → List (Option Outcome) → Type 0
SameBranches [] [] = Unit {0}
SameBranches [] (_ ∷ _) = ⊥
SameBranches (_ ∷ _) [] = ⊥
SameBranches (b ∷ bs) (b' ∷ bs') = SameBranch b b' × SameBranches bs bs'

pub first_of-Same :
    (bs bs' : List (Option Outcome)) (default default' : Outcome)
    → SameBranches bs bs'
    → Same default default'
    → Same (first_of bs default) (first_of bs' default')
unfolding first_of
first_of-Same [] [] default default' h d = d
first_of-Same [] (b ∷ bs) default default' h d = absurd h
first_of-Same (b ∷ bs) [] default default' h d = absurd h
first_of-Same (none ∷ bs) (none ∷ bs') default default' h d =
    first_of-Same bs bs' default default' h.1 d
first_of-Same (none ∷ bs) (some o ∷ bs') default default' h d = absurd h.0
first_of-Same (some o ∷ bs) (none ∷ bs') default default' h d = absurd h.0
first_of-Same (some o ∷ bs) (some o' ∷ bs') default default' h d = h.0

pub when-Same : (b : Bool) (o o' : Outcome) → Same o o' → SameBranch (when b o) (when b o')
unfolding when
when-Same true o o' s = s
when-Same false o o' s = tt

not-Unprobed : (r : ProbeResult) → Probed r → Unprobed r → ⊥
not-Unprobed r (inl v) (inl u) = cc
not-Unprobed r (inl v) (inr u) = cc
not-Unprobed r (inr v) (inl u) = cc
not-Unprobed r (inr v) (inr u) = cc

pub ok-Same : (p : ProbeResult) (o : Outcome) → Probed p → Same (ok p) o
ok-Same p o probed r h u =
    let same : p ≡ r = cc h in absurd (not-Unprobed r (subst Probed same probed) u)

pub probe-Same :
    (b : Bool) (p p' : ProbeResult) → Probed p → SameBranch (when b (ok p)) (when b (ok p'))
probe-Same b p p' probed = when-Same b (ok p) (ok p') (ok-Same p (ok p') probed)

pub Same-refl : (o : Outcome) → Same o o
Same-refl o r h u = h

pub tcp-Same :
    (extra : List (Str × Str)) (host : Str) (port : ℤ) (reply : TcpReply) (o : Outcome)
    → Same (with_details_if_ok extra (tcp_result host port reply)) o
unfolding tcp_result
tcp-Same extra host port connected o = ok-Same _ o (inl refl)
tcp-Same extra host port tcp_timeout o = ok-Same _ o (inr refl)
tcp-Same extra host port connection_refused o = ok-Same _ o (inr refl)
tcp-Same extra host port os_error o = ok-Same _ o (inr refl)
tcp-Same extra host port other_error o = λ r h u. cc

pub bind-Same :
    (m : Result Raised ℤ) (f g : ℤ → Outcome)
    → ((n : ℤ) → Same (f n) (g n))
    → Same (m >>= f) (m >>= g)
bind-Same (ok n) f g s = s n
bind-Same (err e) f g s = λ r h u. cc
