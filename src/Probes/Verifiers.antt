-- ===== src/Probes/Verifiers.antt =====
-- The five verifiers of gateway/verification: db.py, queue.py, storage.py, function.py and api.py. A
-- method's chain of early returns is a list of optional results, of which the first one counts.
use agent_authorization_gate.Base.{
  Bool, true, false, not, ◌&&◌, ◌||◌, Option, none, some, List, [], ◌∷◌, ◌++◌, Result, ok, err,
  ◌>>=◌, Str, Bytes, codes, str_eq, if◌then◌else◌, ◌==◌,
}
use agent_authorization_gate.Base.Dict.{Dict, lookup, insert}
use agent_authorization_gate.Base.Int.{ℤ, pos, int_of_str}
use agent_authorization_gate.Canonical.{Value}
use agent_authorization_gate.Probes.{
  failed, skipped, verified, metadata_only, ProbeResult, Raised, is_empty_text, not_found, recorded,
  Url, Network, nothing_provided, Moment, get_text, tcp_result, value_error,
  parse_connection_string,
}
use agent_authorization_gate.Probes.Http.{
  probe_url, probe_url_unauthenticated, probe_gcp_api, probe_aws_api, probe_with_bearer,
  probe_with_basic_auth,
}

-- The metadata of a request: its texts, and its `verification_credentials`.
pub record ResourceMetadata : Type 0 where
  pub fields : Dict Str
  pub credentials : Dict Str

pub data ResourceType : Type 0 where
  db queue storage function api : ResourceType

-- A result, or an exception that a verifier does not catch.
abbrev pub Outcome : Type 0
Outcome = Result Raised ProbeResult

unfoldable pub first_of : List (Option Outcome) → Outcome → Outcome
first_of [] default = default
first_of (none ∷ rest) default = first_of rest default
first_of (some r ∷ rest) default = r

unfoldable pub when : Bool → Outcome → Option Outcome
when true r = some r
when false r = none

-- `result.details[key] = value` for texts.
unfoldable pub add_details : List (Str × Str) → Dict Value → Dict Value
add_details [] d = d
add_details ((k, v) ∷ rest) d = add_details rest (insert k (Value.str v) d)

abbrev pub with_details : List (Str × Str) → ProbeResult → ProbeResult
with_details extra r = record r { details = add_details extra r.details }

abbrev pub with_details_if_ok : List (Str × Str) → Outcome → Outcome
with_details_if_ok extra (ok r) = ok (with_details extra r)
with_details_if_ok extra (err e) = err e

abbrev pub full : Str → Bool
full s = not (is_empty_text s)

-- The result without a live probe.
unfoldable pub declared : Bool → List (Str × Str) → Outcome
declared true extra =
    ok (record { status = metadata_only; reason = recorded; details = add_details extra [] })
declared false extra = ok (record { status = skipped; reason = nothing_provided; details = [] })

-- The same for an API, whose details tell whether it has a specification.
unfoldable pub declared_api : Bool → Str → Bool → Outcome
declared_api true auth_type spec = ok (record {
  status = metadata_only;
  reason = recorded;
  details =
      (codes "auth_type", Value.str auth_type) ∷ (codes "has_openapi_spec", Value.bool spec) ∷ [];
})
declared_api false auth_type spec =
    ok (record { status = skipped; reason = nothing_provided; details = [] })

-- Whether a dict has no entry.
abbrev no_entries : Dict Str → Bool
no_entries [] = true
no_entries (_ ∷ _) = false

-- `result.details.get("status_code") == 404`
unfoldable pub is_404 : Option Value → Bool
is_404 (some (Value.int (pos n))) = n == 404
is_404 _ = false

-- A bucket that is not there: 404 counts as a failure, although the endpoint answered.
unfoldable pub unless_404 : List (Str × Str) → ProbeResult → ProbeResult
unless_404 extra r = elim r.status [
  | verified ↦
      if is_404 (lookup (codes "status_code") r.details)
      then record r { status = failed; reason = not_found 404 }
      else with_details extra r
  | metadata_only ↦ with_details extra r
  | failed ↦ with_details extra r
  | skipped ↦ with_details extra r
]

module _ (sha256 : Bytes → Bytes) (hmac : Bytes → Bytes → Bytes)
    (urlparse : Str → Result Raised Url) (quote : Str → Str → Str) (upper : Str → Str)
    (strip_slashes : Str → Str) (net : Network) (at : Moment) where
  abbrev pub tcp : List (Str × Str) → Str → ℤ → Outcome
  tcp extra host port = with_details_if_ok extra (tcp_result host port (net.connect host port))

  -- `int(text)` for a port.
  abbrev port_of : Str → Result Raised ℤ
  port_of s = elim (int_of_str s) [ none ↦ err value_error | some n ↦ ok n ]

  -- The probe of a host that a connection string names.
  abbrev pub to_host : List (Str × Str) → Option (Str × ℤ) → Option Outcome
  to_host extra none = none
  to_host extra (some (host, port)) = some (tcp extra host port)

  abbrev pub from_connection : List (Str × Str) → Str → Option Outcome
  from_connection extra [] = none
  from_connection extra (c ∷ conn) = to_host extra (parse_connection_string urlparse (c ∷ conn))

  -- `DatabaseVerifier.verify`
  unfoldable pub verify_db : Str → ResourceMetadata → Outcome
  verify_db (c ∷ url) m = ok (probe_url net (c ∷ url) (codes "GET") (200 ∷ []))
  verify_db [] m =
      let get = λ (k : Str). get_text k [] m.fields in
      let provider = get (codes "provider") in
      let project = get (codes "project_id") in
      let engine = get (codes "engine") in
      let instance_id = get (codes "instance") in
      let provided : Str × Str = (codes "provider", provider) in
      first_of
        (when (str_eq provider (codes "firestore") && full project) (
            ok (
              with_details (provided ∷ (codes "project_id", project) ∷ []) (
                probe_gcp_api net
                  (codes "https://firestore.googleapis.com/v1/projects/"
                    ++ (project ++ codes "/databases/(default)"))
                  (200 ∷ []))))
          ∷ when (str_eq provider (codes "cloudsql") && (full project && full instance_id)) (
              ok (
                with_details
                  (provided ∷ (codes "project_id", project) ∷ (codes "instance", instance_id) ∷ [])
                  (probe_gcp_api net
                    (codes "https://sqladmin.googleapis.com/v1/projects/"
                      ++ (project ++ (codes "/instances/" ++ instance_id)))
                    (200 ∷ []))))
          ∷ from_connection ((codes "engine", engine) ∷ provided ∷ [])
              (get (codes "connection_string"))
          ∷ [])
        (declared (full engine || full provider) ((codes "engine", engine) ∷ provided ∷ []))

  -- The branches of `QueueVerifier.verify` behind the reading of `broker_port`.
  unfoldable pub queue_brokers : ResourceMetadata → Str → Str → ℤ → Outcome
  queue_brokers m provider topic broker_port =
      let get = λ (k : Str). get_text k [] m.fields in
      let described = (codes "topic", topic) ∷ (codes "provider", provider) ∷ [] in
      first_of
        (when (str_eq provider (codes "kafka") && full (get (codes "broker_host")))
            (tcp described (get (codes "broker_host")) broker_port)
          ∷ when (str_eq provider (codes "rabbitmq") && full (get (codes "host"))) (do
            port ← port_of (get_text (codes "port") (codes "5672") m.fields)
            tcp described (get (codes "host")) port)
          ∷ [])
        (declared (full topic || full provider) described)

  -- `QueueVerifier.verify`
  unfoldable pub verify_queue : Str → ResourceMetadata → Outcome
  verify_queue (c ∷ url) m = ok (probe_url net (c ∷ url) (codes "GET") (200 ∷ []))
  verify_queue [] m =
      let get = λ (k : Str). get_text k [] m.fields in
      let topic = get (codes "topic") in
      let provider = get (codes "provider") in
      let project = get (codes "project_id") in
      let region = get_text (codes "region") (codes "us-east-1") m.fields in
      let account = get (codes "account_id") in
      let management = get (codes "management_url") in
      let vhost = get_text (codes "vhost") (codes "/") m.fields in
      let creds = m.credentials in
      let username = get_text (codes "username") [] creds in
      let described = (codes "topic", topic) ∷ (codes "provider", provider) ∷ [] in
      first_of
        (when (full topic && (str_eq provider (codes "pubsub") && full project)) (
            ok (
              with_details (described ++ (codes "project_id", project) ∷ []) (
                probe_gcp_api net
                  (codes "https://pubsub.googleapis.com/v1/projects/"
                    ++ (project ++ (codes "/topics/" ++ topic)))
                  (200 ∷ 403 ∷ []))))
          ∷ when
              (full topic
                && (str_eq provider (codes "sqs") && (not (no_entries creds) && full account)))
              (ok (
                with_details (described ++ (codes "region", region) ∷ []) (
                  probe_aws_api sha256 hmac urlparse quote upper net at
                    (codes "https://sqs."
                      ++ (region ++ (codes ".amazonaws.com/" ++ (account ++ (b'/' ∷ topic)))))
                    region (codes "sqs") creds (codes "GET") (200 ∷ 403 ∷ []))))
          ∷ when
              (full topic
                && (str_eq provider (codes "rabbitmq") && (full management && full username)))
              (ok (
                with_details (described ++ (codes "vhost", vhost) ∷ []) (
                  probe_with_basic_auth net
                    (strip_slashes management
                      ++ (codes "/api/queues/" ++ (quote [] vhost ++ (b'/' ∷ quote [] topic))))
                    username (get_text (codes "password") [] creds))))
          ∷ [])
        (do
          broker_port ← port_of (get_text (codes "broker_port") (codes "9092") m.fields)
          queue_brokers m provider topic broker_port)

  -- `StorageVerifier.verify`
  unfoldable pub verify_storage : Str → ResourceMetadata → Outcome
  verify_storage (c ∷ url) m = ok (probe_url net (c ∷ url) (codes "GET") (200 ∷ []))
  verify_storage [] m =
      let get = λ (k : Str). get_text k [] m.fields in
      let bucket = get (codes "bucket") in
      let provider = get (codes "provider") in
      let region = get_text (codes "region") (codes "us-east-1") m.fields in
      let account = get (codes "account") in
      let creds = m.credentials in
      let token = get_text (codes "bearer_token") [] creds in
      let provided : Str × Str = (codes "provider", provider) in
      let is_s3 = full bucket && str_eq provider (codes "s3") in
      let is_azure = full bucket && (str_eq provider (codes "azure_blob") && full account) in
      let in_bucket = (codes "bucket", bucket) ∷ provided ∷ [] in
      let in_account = (codes "container", bucket) ∷ provided ∷ (codes "account", account) ∷ [] in
      let azure_url =
        codes "https://"
        ++ (account
            ++ (codes ".blob.core.windows.net/" ++ (bucket ++ codes "?restype=container"))) in
      first_of
        (when (full bucket && str_eq provider (codes "gcs")) (
            ok (
              with_details in_bucket (
                probe_gcp_api net (codes "https://storage.googleapis.com/storage/v1/b/" ++ bucket)
                  (200 ∷ 403 ∷ []))))
          ∷ when (is_s3 && not (no_entries creds)) (
              ok (
                with_details (in_bucket ++ (codes "region", region) ∷ []) (
                  probe_aws_api sha256 hmac urlparse quote upper net at
                    (codes "https://"
                      ++ (bucket ++ (codes ".s3." ++ (region ++ codes ".amazonaws.com/"))))
                    region (codes "s3") creds (codes "HEAD") (200 ∷ 301 ∷ 403 ∷ []))))
          ∷ when is_s3 (
              ok (
                unless_404 in_bucket (
                  probe_url_unauthenticated net
                    (codes "https://" ++ (bucket ++ codes ".s3.amazonaws.com/")))))
          ∷ when (is_azure && full token) (
              ok (
                with_details in_account
                  (probe_with_bearer net azure_url token (codes "HEAD") (200 ∷ 403 ∷ []))))
          ∷ when is_azure (ok (unless_404 in_account (probe_url_unauthenticated net azure_url)))
          ∷ [])
        (declared (full bucket || full provider) (
          in_bucket
          ++ (codes "prefix", get (codes "prefix"))
            ∷ (codes "content_classification", get (codes "content_classification"))
            ∷ []))

  -- `FunctionVerifier.verify`
  unfoldable pub verify_function : Str → ResourceMetadata → Outcome
  verify_function (c ∷ url) m =
      ok (probe_url net (c ∷ url) (codes "HEAD") (200 ∷ 204 ∷ 401 ∷ 403 ∷ 405 ∷ []))
  verify_function [] m =
      let get = λ (k : Str). get_text k [] m.fields in
      let name = get (codes "function_name") in
      let provider = get (codes "provider") in
      let project = get (codes "project_id") in
      let region = get (codes "region") in
      let described =
        (codes "function_name", name)
        ∷ (codes "provider", provider)
        ∷ (codes "region", region)
        ∷ [] in
      let located = project ++ (codes "/locations/" ++ region) in
      first_of
        (when
            (str_eq provider (codes "cloud_functions")
              && (full project && (full region && full name)))
            (ok (
              with_details described (
                probe_gcp_api net
                  (codes "https://cloudfunctions.googleapis.com/v2/projects/"
                    ++ (located ++ (codes "/functions/" ++ name)))
                  (200 ∷ []))))
          ∷ when
              (str_eq provider (codes "cloud_run_jobs")
                && (full project && (full region && full name)))
              (ok (
                with_details described (
                  probe_gcp_api net
                    (codes "https://run.googleapis.com/v2/projects/"
                      ++ (located ++ (codes "/jobs/" ++ name)))
                    (200 ∷ []))))
          ∷ when
              (str_eq provider (codes "lambda")
                && (full region && (full name && not (no_entries m.credentials))))
              (ok (
                with_details described (
                  probe_aws_api sha256 hmac urlparse quote upper net at
                    (codes "https://lambda."
                      ++ (region ++ (codes ".amazonaws.com/2015-03-31/functions/" ++ name)))
                    region (codes "lambda") m.credentials (codes "GET") (200 ∷ []))))
          ∷ [])
        (declared (full name || full provider)
          (described ++ (codes "runtime", get (codes "runtime")) ∷ []))

  -- `ApiVerifier.verify`
  unfoldable pub verify_api : Str → ResourceMetadata → Outcome
  verify_api (c ∷ url) m =
      ok (probe_url net (c ∷ url) (codes "HEAD") (200 ∷ 204 ∷ 301 ∷ 302 ∷ 401 ∷ 403 ∷ 405 ∷ []))
  verify_api [] m =
      let get = λ (k : Str). get_text k [] m.fields in
      let base_url = get (codes "base_url") in
      let auth_type = get (codes "auth_type") in
      let spec = full (get (codes "openapi_spec_url")) in
      first_of
        (when (full base_url) (
            ok (
              with_details ((codes "auth_type", auth_type) ∷ [])
                (probe_url_unauthenticated net base_url)))
          ∷ [])
        (declared_api (full auth_type || spec) auth_type spec)

  -- `get_verifier(resource_type).verify(url, metadata)`
  unfoldable pub verify : ResourceType → Str → ResourceMetadata → Outcome
  verify db url m = verify_db url m
  verify queue url m = verify_queue url m
  verify storage url m = verify_storage url m
  verify function url m = verify_function url m
  verify api url m = verify_api url m
