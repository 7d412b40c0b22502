-- ===== src/Isolator/Tests.antt =====
-- An instance of the theorem on gateway/isolator/isolator_service.py: of two agents, one is revoked.
use agent_authorization_gate.Base.{Option, none, some, [], ◌∷◌, Str, Bytes, codes, Result, ℕ, ok}
use agent_authorization_gate.Identity.{RegisteredAgent}
use agent_authorization_gate.Registration.Routes.{RegistrationService}
use agent_authorization_gate.Isolator.{IncidentBody, Analysis, IsolateRequest}
use agent_authorization_gate.Isolator.Contained.{Contained}

abbrev agent : Str → RegisteredAgent Bytes
agent id = record { agent_id = id; public_key = []; kid = id; live_challenge_url = none }

abbrev gateway : RegistrationService
gateway = record {
  tenant = codes "t";
  registry = record {
    agents = (codes "a", agent (codes "a")) ∷ (codes "b", agent (codes "b")) ∷ [];
    by_kid = (codes "a", agent (codes "a")) ∷ (codes "b", agent (codes "b")) ∷ [];
  };
  challenge_cache = record { ttl = 60; challenges = []; ip_requests = [] };
  liveness = record { records = []; attestation_interval = 300 };
}

abbrev stored : Str → Option IncidentBody
stored _ = some (record { incident_id = some (codes "i"); severity = some (codes "HIGH") })

abbrev analyse : IncidentBody → Option Analysis
analyse _ = some (record {
  agent_id = some (codes "a");
  containment_actions =
      record {
        agent_id = some (codes "a");
        action = some (codes "REVOKE_REGISTRATION");
        rationale = none;
      }
      ∷ [];
  summary = none;
})

abbrev request : IsolateRequest
request = record { tenant = none; incident = none; incident_id = some (codes "i") }

-- Nothing in the path of the request is rewritten.
abbrev route : Str → Result (Option ℕ) Str
route id = ok id
