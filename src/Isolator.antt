-- ===== src/Isolator.antt =====
-- `isolate` of gateway/isolator/isolator_service.py. The analysis of an incident, the stored incidents and
-- the gateway's `DELETE /agents/{agent_id}` are arguments; a record is kept without its signature, its id
-- and its time, and the texts of a containment action but its rationale are left out.
pub mod Contained
pub mod Deletion
pub mod Tests
use agent_authorization_gate.Liveness.{truthy}
use Prim.Native.Nat.{ℕ}
use agent_authorization_gate.Base.{
  Str, Option, Bool, codes, List, if◌then◌else◌, Result, ◌∷◌, some, str_eq, [], err, ok, none, ◌++◌,
  ◌||◌, not, ◌==◌,
}

-- An action of the analysis; any of its fields may be missing.
pub record ContainmentAction : Type 0 where
  pub agent_id : Option Str
  pub action : Option Str
  pub rationale : Option Str

pub data ActionStatus : Type 0 where
  executed agent_not_found deletion_raised recommended flagged : ActionStatus
  deletion_failed : ℕ → ActionStatus

pub record ActionTaken : Type 0 where
  pub agent_id : Option Str
  pub action : Str
  pub status : ActionStatus
  pub rationale : Str

pub record Analysis : Type 0 where
  pub agent_id : Option Str
  pub containment_actions : List ContainmentAction
  pub summary : Option Str

pub record IncidentBody : Type 0 where
  pub incident_id : Option Str
  pub severity : Option Str

pub record IsolationRecord : Type 0 where
  pub tenant : Str
  pub agent_id : Str
  pub incident_id : Str
  pub severity : Str
  pub reason : Str
  pub actions_taken : List ActionTaken

-- The request's body; an empty `incident` counts as missing.
pub record IsolateRequest : Type 0 where
  pub tenant : Option Str
  pub incident : Option IncidentBody
  pub incident_id : Option Str

pub data IsolateAnswer : Type 0 where
  incident_not_found : Str → IsolateAnswer
  no_incident no_output : IsolateAnswer
  skipped : Str → IsolateAnswer
  isolated : IsolationRecord → IsolateAnswer

-- `d.get(key, default)`
unfoldable pub or_default : Str → Option Str → Str
or_default default none = default
or_default default (some s) = s

-- `severity in ("HIGH", "CRITICAL")`
unfoldable pub is_severe : Str → Bool
is_severe severity = str_eq severity (codes "HIGH") || str_eq severity (codes "CRITICAL")

unfoldable pub severity_of : IncidentBody → Str
severity_of incident = or_default (codes "INFO") incident.severity

-- The status by the answer to the deletion, which may raise.
unfoldable pub revocation_status : Option ℕ → ActionStatus
revocation_status none = deletion_raised
revocation_status (some code) =
    if code == 200 || code == 204
    then executed
    else if code == 404
    then agent_not_found
    else deletion_failed code

-- `action_type == "REVOKE_REGISTRATION" and agent_id`
unfoldable pub revoked_agent : ContainmentAction → Option Str
revoked_agent a =
    if str_eq (or_default (codes "MONITOR_ONLY") a.action) (codes "REVOKE_REGISTRATION")
    then truthy a.agent_id
    else none

-- An action that is only noted.
unfoldable pub note_action : ContainmentAction → List ActionTaken
note_action a =
    let kind = or_default (codes "MONITOR_ONLY") a.action in
    let noted : ActionTaken = record {
      agent_id = a.agent_id;
      action = kind;
      status = flagged;
      rationale = or_default [] a.rationale;
    } in
    if str_eq kind (codes "RATE_LIMIT_ZERO")
    then record noted { status = recommended } ∷ []
    else if str_eq kind (codes "MONITOR_ONLY")
    then noted ∷ []
    else []

module _ {ℓ} {S : Type ℓ} (delete : Str → S → Option ℕ × S) where
  unfoldable pub execute_action : ContainmentAction → S → List ActionTaken × S
  execute_action a s = elim (revoked_agent a) [
    | none ↦ (note_action a, s)
    | some agent_id ↦
        let (answer, s') = delete agent_id s in
        (
          record {
            agent_id = some agent_id;
            action = codes "REVOKE_REGISTRATION";
            status = revocation_status answer;
            rationale = or_default [] a.rationale;
          }
              ∷ [],
          s',
        )
  ]

  unfoldable pub execute_actions : List ContainmentAction → S → List ActionTaken × S
  execute_actions [] s = ([], s)
  execute_actions (a ∷ actions) s =
      let (taken, s') = execute_action a s in
      let (more, s'') = execute_actions actions s' in (taken ++ more, s'')

  module _ (stored : Str → Option IncidentBody) (analyse : IncidentBody → Option Analysis) where
    -- The incident of the request, or the stored one with the id that the trigger names.
    unfoldable pub incident_of : IsolateRequest → Result IsolateAnswer IncidentBody
    incident_of q = elim q.incident [
      | some incident ↦ ok incident
      | none ↦ elim (truthy q.incident_id) [
        | none ↦ err no_incident
        | some incident_id ↦ elim (stored incident_id) [
          | none ↦ err (incident_not_found incident_id)
          | some incident ↦ ok incident
        ]
      ]
    ]

    -- `isolate` on an incident: the gateway's state, and the records that are written.
    unfoldable pub isolate_incident :
        Str → IncidentBody → S → List IsolationRecord → IsolateAnswer × S × List IsolationRecord
    isolate_incident tenant incident s records =
        if not (is_severe (severity_of incident))
        then (skipped (severity_of incident), s, records)
        else elim (analyse incident) [
          | none ↦ (no_output, s, records)
          | some analysis ↦
              let (taken, s') = execute_actions analysis.containment_actions s in
              let r : IsolationRecord = record {
                tenant = tenant;
                agent_id = or_default (codes "unknown") analysis.agent_id;
                incident_id = or_default (codes "unknown") incident.incident_id;
                severity = severity_of incident;
                reason = or_default (codes "Rogue agent detected") analysis.summary;
                actions_taken = taken;
              } in
              (isolated r, s', records ++ r ∷ [])
        ]

    unfoldable pub isolate :
        Str → IsolateRequest → S → List IsolationRecord → IsolateAnswer × S × List IsolationRecord
    isolate default_tenant q s records = elim (incident_of q) [
      | err e ↦ (e, s, records)
      | ok incident ↦ isolate_incident (or_default default_tenant q.tenant) incident s records
    ]
