-- ===== src/Isolator/Contained.antt =====
-- The isolation of agents by gateway/isolator/isolator_service.py, on the gateway whose route deletes an
-- agent.
use agent_authorization_gate.Base.{
  true, Option, some, List, [], ◌∷◌, ◌++◌, Str, ◌≡◌, ◌⊎◌, ◌≢◌, Result, ok, false, ℕ,
}
use agent_authorization_gate.Registration.Routes.{RegistrationService}
use agent_authorization_gate.Isolator.{
  ContainmentAction, ActionTaken, Analysis, IncidentBody, IsolationRecord, IsolateAnswer, is_severe,
  severity_of, revoked_agent, revocation_status, executed, isolated,
}
use agent_authorization_gate.Isolator.Deletion.{delete_request, Absent, Untouched, is_plain}

-- The agents with a plain id whose deletion a list of actions reports as executed are absent.
abbrev pub AllAbsent : RegistrationService → List ActionTaken → Type 0
AllAbsent s [] = Unit
AllAbsent s (t ∷ taken) =
    ((t.status ≢ executed)
      ⊎ ((agent_id : Str) × (t.agent_id ≡ some agent_id)
          × ((is_plain agent_id ≡ false) ⊎ Absent s agent_id)))
    × AllAbsent s taken

-- An action of the list demands a revocation whose request reaches the route with this agent id.
abbrev pub Demanded : (Str → Result (Option ℕ) Str) → Str → List ContainmentAction → Type 0
Demanded route agent_id [] = ⊥
Demanded route agent_id (a ∷ actions) =
    ((named : Str) × (revoked_agent a ≡ some named) × (route named ≡ ok agent_id))
    ⊎ Demanded route agent_id actions

-- What a list of actions may have done to the gateway, where `Named` says whose revocation they demand.
abbrev Acted :
    (Str → Type 0) → RegistrationService → List ActionTaken × RegistrationService → Type 0
Acted Named s (taken, t) =
    AllAbsent t taken
    × ((other : Str) → Named other ⊎ Untouched other s t)
    × ((other : Str) → Absent s other → Absent t other)

module _ (route : Str → Result (Option ℕ) Str)
    (routes : (id : Str) → is_plain id ≡ true → route id ≡ ok id) where
  -- What is reported of a request, and what it did.
  abbrev Requested : Str → RegistrationService → Type 0
  Requested agent_id s =
      let (answer, t) = delete_request route agent_id s in
      ((revocation_status answer ≢ executed) ⊎ ((is_plain agent_id ≡ false) ⊎ Absent t agent_id))
      × ((other : Str) → (route agent_id ≡ ok other) ⊎ Untouched other s t)
      × ((other : Str) → Absent s other → Absent t other)

module _ (route : Str → Result (Option ℕ) Str)
    (routes : (id : Str) → is_plain id ≡ true → route id ≡ ok id)
    (stored : Str → Option IncidentBody) (analyse : IncidentBody → Option Analysis) where
  -- The answer comes without any change, or the incident is severe and the analysis named the actions.
  abbrev pub Contained :
      RegistrationService
      → List IsolationRecord
      → IsolateAnswer × RegistrationService × List IsolationRecord
      → Type 0
  Contained s records out =
      ((out.1 ≡ s) × (out.2 ≡ records))
      ⊎ ((incident : IncidentBody) × (analysis : Analysis) × (r : IsolationRecord) × (is_severe
              (severity_of incident)
            ≡ true)
          × (analyse incident ≡ some analysis)
          × (out.0 ≡ isolated r)
          × (out.2 ≡ records ++ r ∷ [])
          × (r.severity ≡ severity_of incident)
          × Acted (λ other. Demanded route other analysis.containment_actions) s
              (r.actions_taken, out.1))
