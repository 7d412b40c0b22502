-- ===== src/Probes/Tests.antt =====
-- Instances of the theorems on gateway/verification: a bucket without credentials, and a database of
-- which only the engine is declared.
use agent_authorization_gate.Base.{
  ◌≡◌, refl, inl, none, [], ◌∷◌, Result, ok, err, Str, Bytes, codes, ◌++◌, str_eq,
}
use agent_authorization_gate.Base.Dict.{lookup, insert}
use agent_authorization_gate.Fixtures.{toy_hash}
use agent_authorization_gate.Verify.{Raised, value_error}
use agent_authorization_gate.Probes.{
  ProbeResult, verified, metadata_only, raised, connected, Moment, Network, Url, response,
}
use agent_authorization_gate.Probes.Verifiers.{
  ResourceType, ResourceMetadata, verify, storage, verify_db, verify_storage, db,
}
use agent_authorization_gate.Probes.Live.{Shown}
use agent_authorization_gate.Probes.Verified.{verified_is_live}
use agent_authorization_gate.Probes.Declared.{declared_without_probe}
use agent_authorization_gate.Probes.Verifiers.{
  first_of, when, unless_404, is_404, add_details, declared,
}
use agent_authorization_gate.Probes.Http.{probe_url_unauthenticated, any_response}

abbrev no_url : Str → Result Raised Url
no_url s = err value_error

abbrev as_given : Str → Str
as_given s = s

abbrev quoted : Str → Str → Str
quoted safe s = s

abbrev joined : Bytes → Bytes → Bytes
joined k m = toy_hash (k ++ m)

abbrev forbidden : Network
forbidden = record {
  http = λ q. response 403;
  connect = λ host port. connected;
  identity_token = λ url. none;
  access_token = none;
}

abbrev broken : Network
broken = record forbidden { http = λ q. raised }

abbrev today : Moment
today = record { datestamp = codes "20260101"; amzdate = codes "20260101T000000Z" }

abbrev bucket : ResourceMetadata
bucket = record {
  fields = (codes "provider", codes "s3") ∷ (codes "bucket", codes "b") ∷ [];
  credentials = [];
}

abbrev engine : ResourceMetadata
engine = record { fields = (codes "engine", codes "postgres") ∷ []; credentials = [] }

abbrev Run : ResourceType → ResourceMetadata → Type 0
Run rt m =
    (r : ProbeResult) × (verify toy_hash joined no_url quoted as_given as_given forbidden today rt
        [] m
      ≡ ok r)

bucket_run : Run storage bucket
unfolding verify verify_storage first_of when unless_404 probe_url_unauthenticated any_response
    lookup str_eq is_404 add_details insert
bucket_run = (_, refl)

bucket_verified : bucket_run.0.status ≡ verified
unfolding bucket_run
bucket_verified = refl

verified_is_live_example : Shown forbidden storage []
verified_is_live_example =
    verified_is_live toy_hash joined no_url quoted as_given as_given forbidden today storage []
      bucket bucket_run.0 bucket_run.1 bucket_verified

engine_run : Run db engine
unfolding verify verify_db first_of when declared lookup str_eq add_details insert
engine_run = (_, refl)

engine_declared : engine_run.0.status ≡ metadata_only
unfolding engine_run
engine_declared = refl

declared_without_probe_example :
    verify toy_hash joined no_url quoted as_given as_given broken today db [] engine
    ≡ ok engine_run.0
declared_without_probe_example =
    declared_without_probe toy_hash joined no_url quoted as_given as_given forbidden broken today
      today db [] engine engine_run.0 engine_run.1 (inl engine_declared)
