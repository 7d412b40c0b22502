-- ===== src/Probes/Verified.antt =====
-- Each verifier of gateway/verification calls a resource verified on a live probe only.
use agent_authorization_gate.Base.{
  ℕ, ◌≡◌, refl, ap, ◌∙◌, Bool, true, false, inr, Option, none, some, List, [], ◌∷◌, Result, ok, err,
  ◌>>=◌, Str, Bytes, codes, All,
}
use agent_authorization_gate.Base.Int.{ℤ}
use agent_authorization_gate.Verify.{Raised}
use agent_authorization_gate.Probes.{
  ProbeResult, verified, connected, Network, accepts, tcp_result, TcpReply, tcp_timeout, returned,
  connection_refused, os_error, Url, Moment, parse_connection_string,
}
use agent_authorization_gate.Probes.{other_error}
use agent_authorization_gate.Probes.Verifiers.{
  first_of, verify_db, verify_api, verify_function, queue_brokers, db, verify_storage, verify,
  verify_queue, ResourceMetadata, queue, storage, api, function, from_connection, to_host,
}
use agent_authorization_gate.Probes.Live.{
  Live, Shown, by_status-Shown, gcp-Shown, aws-Shown, unauthenticated-Shown, unless_404-Shown,
  basic-Shown, bearer-Shown,
}
use agent_authorization_gate.Probes.Verifiers.{
  ResourceType, with_details_if_ok, declared, when, Outcome, declared_api,
}
use agent_authorization_gate.Probes.Http.{probe_url}

module _ (net : Network) (rt : ResourceType) where
  ok-Live :
      (url : Str) (p : ProbeResult)
      → (p.status ≡ verified → Shown net rt url)
      → Live net rt url (ok p)
  ok-Live url p shown r h v =
      let same : p ≡ r = cc h in shown (ap (λ (x : ProbeResult). x.status) same ∙ v)

  pub url-Live :
      (c : ℕ) (url method : Str) (statuses : List ℕ)
      → accepts statuses 404 ≡ false
      → Live net rt (c ∷ url) (ok (probe_url net (c ∷ url) method statuses))
  unfolding probe_url
  url-Live c url method statuses absent =
      ok-Live (c ∷ url) (probe_url net (c ∷ url) method statuses)
        (λ v. by_status-Shown net rt statuses returned _ _ (c ∷ url) absent (inr refl) v)

  answer-Live :
      (extra : List (Str × Str)) (host : Str) (port : ℤ) (reply : TcpReply)
      → net.connect host port ≡ reply
      → Live net rt [] (with_details_if_ok extra (tcp_result host port reply))
  unfolding tcp_result
  answer-Live extra host port connected e r h v = inr (refl, (host, port, e))
  answer-Live extra host port tcp_timeout e r h v = cc
  answer-Live extra host port connection_refused e r h v = cc
  answer-Live extra host port os_error e r h v = cc
  answer-Live extra host port other_error e r h v = cc

  tcp-Live :
      (extra : List (Str × Str)) (host : Str) (port : ℤ)
      → Live net rt [] (with_details_if_ok extra (tcp_result host port (net.connect host port)))
  tcp-Live extra host port = answer-Live extra host port (net.connect host port) refl

  declared-Live : (b : Bool) (extra : List (Str × Str)) → Live net rt [] (declared b extra)
  unfolding declared
  declared-Live true extra r h v = cc
  declared-Live false extra r h v = cc

  declared_api-Live :
      (b : Bool) (auth : Str) (spec : Bool) → Live net rt [] (declared_api b auth spec)
  unfolding declared_api
  declared_api-Live true auth spec r h v = cc
  declared_api-Live false auth spec r h v = cc

  -- A branch that is taken is live.
  abbrev LiveBranch : Option Outcome → Type 0
  LiveBranch none = Unit {0}
  LiveBranch (some o) = Live net rt [] o

  when-Live : (b : Bool) (o : Outcome) → Live net rt [] o → LiveBranch (when b o)
  unfolding when
  when-Live true o live = live
  when-Live false o live = tt

  first_of-Live :
      (bs : List (Option Outcome)) (default : Outcome)
      → All LiveBranch bs
      → Live net rt [] default
      → Live net rt [] (first_of bs default)
  unfolding first_of
  first_of-Live [] default h live = live
  first_of-Live (none ∷ bs) default h live = first_of-Live bs default h.1 live
  first_of-Live (some o ∷ bs) default h live = h.0

  bind-Live :
      (m : Result Raised ℤ) (f : ℤ → Outcome)
      → ((n : ℤ) → Live net rt [] (f n))
      → Live net rt [] (m >>= f)
  bind-Live (ok n) f live = live n
  bind-Live (err e) f live = λ r h v. cc

  -- A branch with a result of a probe.
  probe-Live :
      (b : Bool) (p : ProbeResult)
      → (p.status ≡ verified → Shown net rt [])
      → LiveBranch (when b (ok p))
  probe-Live b p shown = when-Live b (ok p) (ok-Live [] p shown)

module _ (sha256 : Bytes → Bytes) (hmac : Bytes → Bytes → Bytes)
    (urlparse : Str → Result Raised Url) (quote : Str → Str → Str) (upper : Str → Str)
    (strip_slashes : Str → Str) (net : Network) (at : Moment) where
  host-Live :
      (extra : List (Str × Str)) (o : Option (Str × ℤ))
      → LiveBranch net db (to_host sha256 hmac urlparse quote upper strip_slashes net at extra o)
  host-Live extra none = tt
  host-Live extra (some (host, port)) = tcp-Live net db extra host port

  connection-Live :
      (extra : List (Str × Str)) (conn : Str)
      → LiveBranch net db
          (from_connection sha256 hmac urlparse quote upper strip_slashes net at extra conn)
  connection-Live extra [] = tt
  connection-Live extra (c ∷ conn) = host-Live extra (parse_connection_string urlparse (c ∷ conn))

  db-Live :
      (url : Str) (m : ResourceMetadata)
      → Live net db url (verify_db sha256 hmac urlparse quote upper strip_slashes net at url m)
  unfolding verify_db accepts
  db-Live (c ∷ url) m = url-Live net db c url (codes "GET") (200 ∷ []) refl
  db-Live [] m =
      first_of-Live net db _ _
        (
          probe-Live net db _ _ (gcp-Shown net db _ (200 ∷ []) refl),
          (probe-Live net db _ _ (gcp-Shown net db _ (200 ∷ []) refl), (connection-Live _ _, tt)),
        )
        (declared-Live net db _ _)

  brokers-Live :
      (m : ResourceMetadata) (provider topic : Str) (port : ℤ)
      → Live net queue [] (
          queue_brokers sha256 hmac urlparse quote upper strip_slashes net at m provider topic port)
  unfolding queue_brokers
  brokers-Live m provider topic port =
      first_of-Live net queue _ _
        (
          when-Live net queue _ _ (tcp-Live net queue _ _ _),
          (when-Live net queue _ _ (bind-Live net queue _ _ (λ n. tcp-Live net queue _ _ n)), tt),
        )
        (declared-Live net queue _ _)

  queue-Live :
      (url : Str) (m : ResourceMetadata)
      → Live net queue url
          (verify_queue sha256 hmac urlparse quote upper strip_slashes net at url m)
  unfolding verify_queue accepts
  queue-Live (c ∷ url) m = url-Live net queue c url (codes "GET") (200 ∷ []) refl
  queue-Live [] m =
      first_of-Live net queue _ _
        (
          probe-Live net queue _ _ (gcp-Shown net queue _ (200 ∷ 403 ∷ []) refl),
          (
            probe-Live net queue _ _ (
                aws-Shown sha256 hmac urlparse quote upper net queue at _ _ _ _ _ (200 ∷ 403 ∷ [])
                  refl),
            (probe-Live net queue _ _ (basic-Shown net queue _ _ _), tt),
          ),
        )
        (bind-Live net queue _ _ (λ n. brokers-Live m _ _ n))

  storage-Live :
      (url : Str) (m : ResourceMetadata)
      → Live net storage url
          (verify_storage sha256 hmac urlparse quote upper strip_slashes net at url m)
  unfolding verify_storage accepts
  storage-Live (c ∷ url) m = url-Live net storage c url (codes "GET") (200 ∷ []) refl
  storage-Live [] m =
      first_of-Live net storage _ _
        (
          probe-Live net storage _ _ (gcp-Shown net storage _ (200 ∷ 403 ∷ []) refl),
          (
            probe-Live net storage _ _ (
                aws-Shown sha256 hmac urlparse quote upper net storage at _ _ _ _ _
                  (200 ∷ 301 ∷ 403 ∷ []) refl),
            (
              probe-Live net storage _ _ (unless_404-Shown net storage _ _),
              (
                probe-Live net storage _ _ (bearer-Shown net storage _ _ _ (200 ∷ 403 ∷ []) refl),
                (probe-Live net storage _ _ (unless_404-Shown net storage _ _), tt),
              ),
            ),
          ),
        )
        (declared-Live net storage _ _)

  function-Live :
      (url : Str) (m : ResourceMetadata)
      → Live net function url
          (verify_function sha256 hmac urlparse quote upper strip_slashes net at url m)
  unfolding verify_function accepts
  function-Live (c ∷ url) m =
      url-Live net function c url (codes "HEAD") (200 ∷ 204 ∷ 401 ∷ 403 ∷ 405 ∷ []) refl
  function-Live [] m =
      first_of-Live net function _ _
        (
          probe-Live net function _ _ (gcp-Shown net function _ (200 ∷ []) refl),
          (
            probe-Live net function _ _ (gcp-Shown net function _ (200 ∷ []) refl),
            (
              probe-Live net function _ _ (
                  aws-Shown sha256 hmac urlparse quote upper net function at _ _ _ _ _ (200 ∷ [])
                    refl),
              tt,
            ),
          ),
        )
        (declared-Live net function _ _)

  api-Live :
      (url : Str) (m : ResourceMetadata)
      → Live net api url (verify_api sha256 hmac urlparse quote upper strip_slashes net at url m)
  unfolding verify_api accepts
  api-Live (c ∷ url) m =
      url-Live net api c url (codes "HEAD") (200 ∷ 204 ∷ 301 ∷ 302 ∷ 401 ∷ 403 ∷ 405 ∷ []) refl
  api-Live [] m =
      first_of-Live net api _ _ (probe-Live net api _ _ (unauthenticated-Shown net api _ refl), tt)
        (declared_api-Live net api _ _ _)

  -- A resource is called verified only if the network answered: a request got a response, whose
  -- status is not 404 unless the resource is an API, and which went to the URL that was given, if one
  -- was; or, with no URL, a connection to a host and port was opened.
  pub verified_is_live :
      (rt : ResourceType) (url : Str) (m : ResourceMetadata) (r : ProbeResult)
      → verify sha256 hmac urlparse quote upper strip_slashes net at rt url m ≡ ok r
      → r.status ≡ verified
      → Shown net rt url
  unfolding verify
  verified_is_live db url m r h v = db-Live url m r h v
  verified_is_live queue url m r h v = queue-Live url m r h v
  verified_is_live storage url m r h v = storage-Live url m r h v
  verified_is_live function url m r h v = function-Live url m r h v
  verified_is_live api url m r h v = api-Live url m r h v
