-- ===== src/Isolator/Deletion.antt =====
-- `DELETE /agents/{agent_id}` of the gateway, as gateway/isolator/isolator_service.py sees it.
use agent_authorization_gate.Base.{
  Option, none, some, Str, ◌≡◌, Result, ℕ, ◌≢◌, ok, err, Option-cases, arith, inl, inr, refl, Bool,
  leb, length, ◌&&◌, all, ◌||◌, ◌==◌,
}
use agent_authorization_gate.Base.Dict.{lookup, lookup-erase}
use agent_authorization_gate.Identity.{revoke}
use agent_authorization_gate.Identity.Registry.{erased_same, erased_other}
use agent_authorization_gate.Registration.Routes.{
  RouteError, RegistrationService, delete_agent, http_error, internal_error,
}
use agent_authorization_gate.Isolator.{revocation_status, executed}

-- The status code that the server sends for the route's outcome.
abbrev pub status_code : Result {0, 0} RouteError Unit → ℕ
status_code (ok _) = 200
status_code (err (http_error code _)) = code
status_code (err internal_error) = 500

-- The deletion of the agent id that the server receives.
abbrev pub delete_received : Str → RegistrationService → Option ℕ × RegistrationService
delete_received agent_id s =
    let (outcome, s') = delete_agent agent_id s in (some (status_code outcome), s')

-- `client.delete(f"{GATEWAY_URL}/agents/{agent_id}")`, which does not quote the id. `route` is what the
-- HTTP client and the server make of that URL: the agent id that the route of the agents receives, or,
-- when the URL leads elsewhere or the request fails, the status or the exception of it.
unfoldable pub delete_request :
    (Str → Result (Option ℕ) Str) → Str → RegistrationService → Option ℕ × RegistrationService
delete_request route agent_id s = elim (route agent_id) [
  | err answer ↦ (answer, s)
  | ok received ↦ delete_received received s
]

abbrev within : ℕ → ℕ → ℕ → Bool
within low high c = leb low c && leb c high

-- An agent id of letters, digits, dashes and underscores, which a URL takes as it is.
abbrev pub is_plain : Str → Bool
is_plain id =
    leb 1 (length id)
    && all
        (λ c.
          within b'a' b'z' c || within b'A' b'Z' c || within b'0' b'9' c || c == b'-' || c == b'_')
        id

-- The agent is neither registered nor has a liveness record.
abbrev pub Absent : RegistrationService → Str → Type 0
Absent s agent_id =
    (lookup agent_id s.registry.agents ≡ none) × (lookup agent_id s.liveness.records ≡ none)

-- The agent's registration and liveness record are the same in both states.
abbrev pub Untouched : Str → RegistrationService → RegistrationService → Type 0
Untouched agent_id s t =
    (lookup agent_id t.registry.agents ≡ lookup agent_id s.registry.agents)
    × (lookup agent_id t.liveness.records ≡ lookup agent_id s.liveness.records)

pub delete-Absent :
    (agent_id : Str) (s : RegistrationService)
    → revocation_status (delete_received agent_id s).0 ≡ executed
    → Absent (delete_received agent_id s).1 agent_id
unfolding delete_agent revoke revocation_status
delete-Absent agent_id s h = elim (Option-cases (lookup agent_id s.registry.agents)) [
  | inl e ↦ absurd (ground arith)
  | inr (a, e) ↦
      rw (delete_agent, revoke, e)
        (erased_same agent_id s.registry.agents, erased_same agent_id s.liveness.records)
]

pub delete-Untouched :
    (agent_id other : Str) (s : RegistrationService)
    → agent_id ≢ other
    → Untouched other s (delete_received agent_id s).1
unfolding delete_agent revoke
delete-Untouched agent_id other s n = elim (Option-cases (lookup agent_id s.registry.agents)) [
  | inl e ↦ rw (delete_agent, revoke, e) (refl, refl)
  | inr (a, e) ↦
      rw (delete_agent, revoke, e)
        (
          erased_other agent_id other s.registry.agents n,
          erased_other agent_id other s.liveness.records n,
        )
]

-- A deletion keeps absent what is absent.
pub delete_keeps-Absent :
    (agent_id other : Str) (s : RegistrationService)
    → Absent s other
    → Absent (delete_received agent_id s).1 other
unfolding delete_agent revoke
delete_keeps-Absent agent_id other s (r, l) =
    let r' = lookup-erase agent_id other s.registry.agents in
    let l' = lookup-erase agent_id other s.liveness.records in ground (arith, r, l, r', l')
