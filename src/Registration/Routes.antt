-- ===== src/Registration/Routes.antt =====
-- The registration routes of gateway/api.py: `register_challenge`, `register_agent` and `delete_agent`. The
-- nonce and the id that a challenge draws, and the answer of the agent's callback, are arguments; the
-- agent's card, the saves of the store and the texts of the response are left out.
use agent_authorization_gate.Base.{
  Bool, true, false, Option, none, some, Result, ok, err, Str, Bytes, codes, ℕ, ltb, length,
  if◌then◌else◌, not, ◌+◌,
}
use agent_authorization_gate.Canonical.{Fields}
use agent_authorization_gate.Identity.{
  AgentRegistry, RegistrationChallengeCache, check_rate_limit, issue, register, revoke,
}
use agent_authorization_gate.Liveness.{
  LivenessManager, LivenessRecord, LivenessState, ChallengeResult, truthy, get_or_create,
  record_result, remove,
}
use agent_authorization_gate.Registration.{
  JwkError, RegistrationProof, RegistrationError, RegistrationFailure, parse_jwk,
  verify_registration_proof, refused, invalid_proof_signature, raised,
}
use agent_authorization_gate.Base.Dict.{insert}

-- What the routes share: the gateway's tenant and agent registry, the challenges, and the liveness
-- records.
pub record RegistrationService : Type 0 where
  pub tenant : Str
  pub registry : AgentRegistry Bytes
  pub challenge_cache : RegistrationChallengeCache
  pub liveness : LivenessManager

abbrev pub challenge_dict_max : ℕ
challenge_dict_max = 10000

-- `check_capacity`
unfoldable pub check_capacity : RegistrationChallengeCache → Bool
check_capacity c = ltb (length c.challenges) challenge_dict_max

-- `HTTPException`, by its status, with the proof's error if it has one; or an exception that the route
-- does not catch, which the server answers.
pub data RouteError : Type 0 where
  http_error : ℕ → Option RegistrationError → RouteError
  internal_error : RouteError

pub record IssuedChallenge : Type 0 where
  pub nonce : Str
  pub challenge_id : Str
  pub expires_at : ℕ

abbrev ip_or_unknown : Option Str → Str
ip_or_unknown none = codes "unknown"
ip_or_unknown (some ip) = ip

unfoldable pub register_challenge :
    Option Str
    → Str
    → Str
    → Str
    → ℕ
    → RegistrationService
    → Result RouteError IssuedChallenge × RegistrationService
register_challenge client agent_id nonce challenge_id now s =
    let (allowed, c) = check_rate_limit (ip_or_unknown client) now s.challenge_cache in
    let s' = record s { challenge_cache = c } in
    if not allowed
    then (err (http_error 429 none), s')
    else if not (check_capacity c)
    then (err (http_error 503 none), s')
    else (
      ok (record { nonce = nonce; challenge_id = challenge_id; expires_at = now + c.ttl }),
      record s' { challenge_cache = issue s.tenant agent_id nonce challenge_id now c },
    )

pub record AgentRegisterRequest : Type 0 where
  pub agent_id : Str
  pub public_key : Fields
  pub proof : Option RegistrationProof
  pub live_challenge_url : Option Str

-- The answer of `register_agent`: what it says of the agent.
pub record Registered : Type 0 where
  pub agent_id : Str
  pub kid : Str
  pub live_verified : Bool
  pub liveness_state : LivenessState

-- `_verify_agent_liveness`: without a URL the check is skipped.
abbrev pub live_result : Option Str → ChallengeResult → Option ChallengeResult
live_result url answer = elim (truthy url) [ none ↦ none | some _ ↦ some answer ]

abbrev pub is_verified : Option ChallengeResult → Bool
is_verified (some ChallengeResult.verified) = true
is_verified _ = false

-- `record_success` if the check succeeded, `record_failure` if there was one that did not.
unfoldable pub seed_record : ℕ → Option ChallengeResult → LivenessRecord → LivenessRecord
seed_record now none r = r
seed_record now (some answer) r = record_result now answer r

-- The status 401 is for a signature that does not verify.
unfoldable pub failure_status : RegistrationFailure → RouteError
failure_status (refused invalid_proof_signature) = http_error 401 (some invalid_proof_signature)
failure_status (refused e) = http_error 400 (some e)
failure_status raised = internal_error

module _ (answer : ChallengeResult) (now : ℕ) where
  -- `register_agent` behind the proof: the registry, then the liveness record.
  unfoldable pub enroll :
      AgentRegisterRequest
      → Result JwkError (Bytes × Str)
      → RegistrationService
      → Result RouteError Registered × RegistrationService
  enroll q (err _) s = (err (http_error 400 none), s)
  enroll q (ok (key, kid)) s =
      let (agent, registry) = register q.agent_id key kid q.live_challenge_url s.registry in
      let (r, manager) = get_or_create q.agent_id q.live_challenge_url s.liveness in
      let live = live_result q.live_challenge_url answer in
      let r' = seed_record now live r in
      (
        ok (record {
          agent_id = agent.agent_id;
          kid = agent.kid;
          live_verified = is_verified live;
          liveness_state = r'.state;
        }),
        record s {
          registry = registry;
          liveness = record manager { records = insert q.agent_id r' manager.records };
        },
      )

  module _ (b64decode : Str → Option Bytes) (sha256 : Bytes → Bytes)
      (ed_check : Bytes → Bytes → Bytes → Bool) where
    unfoldable pub register_agent :
        AgentRegisterRequest
        → RegistrationService
        → Result RouteError Registered × RegistrationService
    register_agent q s =
        let (outcome, c) =
          verify_registration_proof b64decode sha256 ed_check q.public_key q.proof s.tenant
            q.agent_id now s.challenge_cache in
        let s' = record s { challenge_cache = c } in
        elim outcome [
          | err e ↦ (err (failure_status e), s')
          | ok _ ↦ enroll q (parse_jwk b64decode sha256 q.public_key) s'
        ]

-- `delete_agent`
unfoldable pub delete_agent :
    Str → RegistrationService → Result {0, 0} RouteError Unit × RegistrationService
delete_agent agent_id s = elim (revoke agent_id s.registry) [
  | err _ ↦ (err (http_error 404 none), s)
  | ok registry ↦ (ok tt, record s { registry = registry; liveness = remove agent_id s.liveness })
]
