-- ===== src/Probes.antt =====
-- gateway/verification/_http.py and base.py: the probes by which a resource is found to exist. The
-- network, Google's credentials, `urlparse` and `quote` are arguments; the texts of reasons are dropped
-- and their kinds kept.
pub mod Aws
pub mod Http
pub mod Verifiers
pub mod Live
pub mod Verified
pub mod Unprobed
pub mod Declared
pub mod Tests
use agent_authorization_gate.Base.{
  ℕ, zero, suc, Bool, true, false, not, ◌&&◌, Option, none, some, List, [], ◌∷◌, ◌++◌, Result, ok,
  err, Str, codes, str_eq, if◌then◌else◌, ◌==◌, ltb, any, contains_text,
}
use agent_authorization_gate.Base.Int.{ℤ, pos, int_of_str}
use agent_authorization_gate.Base.Dict.{Dict, lookup, insert}
use agent_authorization_gate.Canonical.{Value}
use agent_authorization_gate.Verify.{Raised, value_error}

pub data ProbeStatus : Type 0 where
  verified metadata_only failed skipped : ProbeStatus

-- The kinds of the reasons.
pub data Reason : Type 0 where
  returned : ℕ → Reason
  not_found : ℕ → Reason
  timed_out probe_error no_credentials handshake refused unreachable recorded nothing_provided :
      Reason

pub record ProbeResult : Type 0 where
  pub status : ProbeStatus
  pub reason : Reason
  pub details : Dict Value

pub data Auth : Type 0 where
  anonymous : Auth
  bearer : Str → Auth
  basic : Str → Str → Auth
  headers : Dict Str → Auth

pub record HttpRequest : Type 0 where
  pub method : Str
  pub url : Str
  pub auth : Auth

-- A response, `httpx.TimeoutException`, or any other exception.
pub data Reply : Type 0 where
  response : ℕ → Reply
  timeout : Reply
  raised : Reply

-- The outcome of `asyncio.open_connection` under its timeout; `other_error` is no `OSError`.
pub data TcpReply : Type 0 where
  connected tcp_timeout connection_refused os_error other_error : TcpReply

-- What `urlparse` returns; reading the port may raise.
pub record Url : Type 0 where
  pub scheme : Str
  pub hostname : Option Str
  pub port : Result Raised (Option ℕ)
  pub path : Str
  pub query : Str

-- The network, and the credentials that Google's libraries find.
pub record Network : Type 0 where
  pub http : HttpRequest → Reply
  pub connect : Str → ℤ → TcpReply
  pub identity_token : Str → Option Str
  pub access_token : Option Str

-- `datestamp` and `amzdate` of the moment of the call.
pub record Moment : Type 0 where
  pub datestamp : Str
  pub amzdate : Str

abbrev pub is_empty_text : Str → Bool
is_empty_text [] = true
is_empty_text (_ ∷ _) = false

-- `d.get(key, default)`
abbrev pub get_text : Str → Str → Dict Str → Str
get_text k default d = elim (lookup k d) [ none ↦ default | some v ↦ v ]

unfoldable pub url_detail : Str → Dict Value
url_detail url = (codes "url", Value.str url) ∷ []

-- `resp.status_code in accept_statuses`
unfoldable pub accepts : List ℕ → ℕ → Bool
accepts statuses n = any (λ s. s == n) statuses

-- The result of a reply that counts when its status is accepted.
unfoldable pub by_status : List ℕ → (ℕ → Reason) → Dict Value → Reply → ProbeResult
by_status statuses refusal details (response n) =
    if accepts statuses n
    then record {
      status = verified;
      reason = returned n;
      details = insert (codes "status_code") (Value.int (pos n)) details;
    }
    else record {
      status = failed;
      reason = refusal n;
      details = insert (codes "status_code") (Value.int (pos n)) details;
    }
by_status statuses refusal details timeout = record {
  status = failed;
  reason = timed_out;
  details = details;
}
by_status statuses refusal details raised = record {
  status = failed;
  reason = probe_error;
  details = details;
}

-- `parts = conn_str.rsplit(":", 1)`: the text before and behind the last colon.
unfoldable pub rsplit_colon : Str → Option (Str × Str)
rsplit_colon [] = none
rsplit_colon (c ∷ s) = elim (rsplit_colon s) [
  | some (before, behind) ↦ some (c ∷ before, behind)
  | none ↦ if c == b':' then some ([], s) else none
]

abbrev default_ports : Dict ℕ
default_ports =
    (codes "postgresql", 5432)
    ∷ (codes "postgres", 5432)
    ∷ (codes "mysql", 3306)
    ∷ (codes "mariadb", 3306)
    ∷ (codes "mongodb", 27017)
    ∷ (codes "mongodb+srv", 27017)
    ∷ (codes "redis", 6379)
    ∷ (codes "rediss", 6379)
    ∷ []

abbrev default_port : Str → ℕ
default_port scheme = elim (lookup scheme default_ports) [ none ↦ 0 | some n ↦ n ]

-- `host:port`, where no URL was found.
unfoldable pub plain_host : Str → Option (Str × ℤ)
plain_host s =
    if contains_text (codes ":") s && not (contains_text (codes "/") s)
    then elim (rsplit_colon s) [
      | none ↦ none
      | some (host, port) ↦ elim (int_of_str port) [ none ↦ none | some n ↦ some (host, n) ]
    ]
    else none

unfoldable pub host_and_port : Str → Url → Option (Str × ℤ)
host_and_port s u = elim u.hostname [
  | none ↦ plain_host s
  | some [] ↦ plain_host s
  | some (c ∷ host) ↦ elim u.port [
    | err _ ↦ none
    | ok p ↦
        let port : ℕ = elim p [ none ↦ default_port u.scheme | some n ↦ n ] in
        if ltb 0 port then some (c ∷ host, pos port) else plain_host s
  ]
]

-- `parse_connection_string`
unfoldable pub parse_connection_string : (Str → Result Raised Url) → Str → Option (Str × ℤ)
parse_connection_string urlparse s = elim (urlparse s) [ err _ ↦ none | ok u ↦ host_and_port s u ]

-- `probe_tcp`; an exception that is no `OSError` is not caught.
unfoldable pub tcp_result : Str → ℤ → TcpReply → Result Raised ProbeResult
tcp_result host port reply =
    let details : Dict Value =
      (codes "host", Value.str host) ∷ (codes "port", Value.int port) ∷ [] in
    elim reply [
      | connected ↦ ok (record { status = verified; reason = handshake; details = details })
      | tcp_timeout ↦ ok (record { status = failed; reason = timed_out; details = details })
      | connection_refused ↦ ok (record { status = failed; reason = refused; details = details })
      | os_error ↦ ok (record { status = failed; reason = unreachable; details = details })
      | other_error ↦ err value_error
    ]
