-- ===== src/Probes/Declared.antt =====
-- A verifier of gateway/verification that calls a resource declared only has asked no network.
use agent_authorization_gate.Base.{
  ◌≡◌, ◌⊎◌, Option, none, some, List, [], ◌∷◌, Result, ok, Str, Bytes, ℕ,
}
use agent_authorization_gate.Base.Int.{ℤ}
use agent_authorization_gate.Verify.{Raised}
use agent_authorization_gate.Probes.{
  ProbeResult, skipped, metadata_only, Url, Network, Moment, parse_connection_string, returned,
}
use agent_authorization_gate.Probes.Verifiers.{
  queue, verify_function, verify_storage, verify_queue, verify_db, queue_brokers, verify_api,
  verify, ResourceMetadata, from_connection, to_host, ResourceType, db, storage, function, api,
}
use agent_authorization_gate.Probes.Http.{
  probe_url, probe_with_basic_auth, probe_with_bearer, probe_url_unauthenticated, probe_aws_api,
}
use agent_authorization_gate.Probes.Unprobed.{
  SameBranch, Probed, Same, by_status-Probed, any_response-Probed, tcp-Same, first_of-Same,
  aws-Probed, ok-Same, probe-Same, when-Same, gcp-Probed, Same-refl, bind-Same, unless_404-Probed,
}
use agent_authorization_gate.Base.Dict.{Dict}

module _ (sha256 : Bytes → Bytes) (hmac : Bytes → Bytes → Bytes)
    (urlparse : Str → Result Raised Url) (quote : Str → Str → Str) (upper : Str → Str)
    (strip_slashes : Str → Str) (net net' : Network) (at at' : Moment) where
  url-Same :
      (url method : Str) (statuses : List ℕ)
      → Same (ok (probe_url net url method statuses)) (ok (probe_url net' url method statuses))
  unfolding probe_url
  url-Same url method statuses = ok-Same _ _ (by_status-Probed statuses returned _ _)

  unauthenticated-Probed : (url : Str) → Probed (probe_url_unauthenticated net url)
  unfolding probe_url_unauthenticated
  unauthenticated-Probed url = any_response-Probed url _

  bearer-Probed :
      (url token method : Str) (statuses : List ℕ)
      → Probed (probe_with_bearer net url token method statuses)
  unfolding probe_with_bearer
  bearer-Probed url token method statuses = by_status-Probed statuses returned [] _

  basic-Probed :
      (url username password : Str) → Probed (probe_with_basic_auth net url username password)
  unfolding probe_with_basic_auth
  basic-Probed url username password = by_status-Probed (200 ∷ []) returned [] _

  signed-Probed :
      (url region service : Str) (creds : Dict Str) (method : Str) (statuses : List ℕ)
      → Probed (
          probe_aws_api sha256 hmac urlparse quote upper net at url region service creds method
            statuses)
  signed-Probed url region service creds method statuses =
      aws-Probed sha256 hmac urlparse quote upper net at url region service creds method statuses

  to_host-Same :
      (extra : List (Str × Str)) (o : Option (Str × ℤ))
      → SameBranch
          (to_host sha256 hmac urlparse quote upper strip_slashes net at extra o)
          (to_host sha256 hmac urlparse quote upper strip_slashes net' at' extra o)
  to_host-Same extra none = tt
  to_host-Same extra (some (host, port)) = tcp-Same extra host port _ _

  connection-Same :
      (extra : List (Str × Str)) (conn : Str)
      → SameBranch
          (from_connection sha256 hmac urlparse quote upper strip_slashes net at extra conn)
          (from_connection sha256 hmac urlparse quote upper strip_slashes net' at' extra conn)
  connection-Same extra [] = tt
  connection-Same extra (c ∷ conn) =
      to_host-Same extra (parse_connection_string urlparse (c ∷ conn))

  db-Same :
      (url : Str) (m : ResourceMetadata)
      → Same
          (verify_db sha256 hmac urlparse quote upper strip_slashes net at url m)
          (verify_db sha256 hmac urlparse quote upper strip_slashes net' at' url m)
  unfolding verify_db
  db-Same (c ∷ url) m = url-Same (c ∷ url) _ _
  db-Same [] m =
      first_of-Same _ _ _ _
        (
          probe-Same _ _ _ (gcp-Probed net _ _),
          (probe-Same _ _ _ (gcp-Probed net _ _), (connection-Same _ _, tt)),
        )
        (Same-refl _)

  brokers-Same :
      (m : ResourceMetadata) (provider topic : Str) (port : ℤ)
      → Same
          (queue_brokers sha256 hmac urlparse quote upper strip_slashes net at m provider topic
            port)
          (queue_brokers sha256 hmac urlparse quote upper strip_slashes net' at' m provider topic
            port)
  unfolding queue_brokers
  brokers-Same m provider topic port =
      first_of-Same _ _ _ _
        (
          when-Same _ _ _ (tcp-Same _ _ _ _ _),
          (when-Same _ _ _ (bind-Same _ _ _ (λ n. tcp-Same _ _ n _ _)), tt),
        )
        (Same-refl _)

  queue-Same :
      (url : Str) (m : ResourceMetadata)
      → Same
          (verify_queue sha256 hmac urlparse quote upper strip_slashes net at url m)
          (verify_queue sha256 hmac urlparse quote upper strip_slashes net' at' url m)
  unfolding verify_queue
  queue-Same (c ∷ url) m = url-Same (c ∷ url) _ _
  queue-Same [] m =
      first_of-Same _ _ _ _
        (
          probe-Same _ _ _ (gcp-Probed net _ _),
          (
            probe-Same _ _ _ (signed-Probed _ _ _ _ _ _),
            (probe-Same _ _ _ (basic-Probed _ _ _), tt),
          ),
        )
        (bind-Same _ _ _ (λ n. brokers-Same m _ _ n))

  storage-Same :
      (url : Str) (m : ResourceMetadata)
      → Same
          (verify_storage sha256 hmac urlparse quote upper strip_slashes net at url m)
          (verify_storage sha256 hmac urlparse quote upper strip_slashes net' at' url m)
  unfolding verify_storage
  storage-Same (c ∷ url) m = url-Same (c ∷ url) _ _
  storage-Same [] m =
      first_of-Same _ _ _ _
        (
          probe-Same _ _ _ (gcp-Probed net _ _),
          (
            probe-Same _ _ _ (signed-Probed _ _ _ _ _ _),
            (
              probe-Same _ _ _ (unless_404-Probed _ _ (unauthenticated-Probed _)),
              (
                probe-Same _ _ _ (bearer-Probed _ _ _ _),
                (probe-Same _ _ _ (unless_404-Probed _ _ (unauthenticated-Probed _)), tt),
              ),
            ),
          ),
        )
        (Same-refl _)

  function-Same :
      (url : Str) (m : ResourceMetadata)
      → Same
          (verify_function sha256 hmac urlparse quote upper strip_slashes net at url m)
          (verify_function sha256 hmac urlparse quote upper strip_slashes net' at' url m)
  unfolding verify_function
  function-Same (c ∷ url) m = url-Same (c ∷ url) _ _
  function-Same [] m =
      first_of-Same _ _ _ _
        (
          probe-Same _ _ _ (gcp-Probed net _ _),
          (
            probe-Same _ _ _ (gcp-Probed net _ _),
            (probe-Same _ _ _ (signed-Probed _ _ _ _ _ _), tt),
          ),
        )
        (Same-refl _)

  api-Same :
      (url : Str) (m : ResourceMetadata)
      → Same
          (verify_api sha256 hmac urlparse quote upper strip_slashes net at url m)
          (verify_api sha256 hmac urlparse quote upper strip_slashes net' at' url m)
  unfolding verify_api
  api-Same (c ∷ url) m = url-Same (c ∷ url) _ _
  api-Same [] m =
      first_of-Same _ _ _ _ (probe-Same _ _ _ (unauthenticated-Probed _), tt) (Same-refl _)

  -- A result that is `metadata_only` or `skipped` comes from the metadata alone: with any other
  -- network, credentials and time the verifier returns the same result.
  pub declared_without_probe :
      (rt : ResourceType) (url : Str) (m : ResourceMetadata) (r : ProbeResult)
      → verify sha256 hmac urlparse quote upper strip_slashes net at rt url m ≡ ok r
      → (r.status ≡ metadata_only) ⊎ (r.status ≡ skipped)
      → verify sha256 hmac urlparse quote upper strip_slashes net' at' rt url m ≡ ok r
  unfolding verify
  declared_without_probe db url m r h u = db-Same url m r h u
  declared_without_probe queue url m r h u = queue-Same url m r h u
  declared_without_probe storage url m r h u = storage-Same url m r h u
  declared_without_probe function url m r h u = function-Same url m r h u
  declared_without_probe api url m r h u = api-Same url m r h u
