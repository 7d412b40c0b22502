-- ===== src/Identity/Tests.antt =====
-- Instances of the theorems on gateway/identity.py.
use agent_authorization_gate.Base.{
  ℕ, ◌≤◌, ◌≡◌, ◌≢◌, refl, Option, none, some, List, [], ◌∷◌, ok, err, Str, codes, str_ne, str_eq,
  arith, if◌then◌else◌, ap, leb,
}
use agent_authorization_gate.Base.Dict.{Dict, lookup, insert, keep}
use agent_authorization_gate.Identity.{
  RegisteredAgent, AgentRegistry, RegistrationChallengeCache, not_registered, register, revoke,
  challenge_not_found, issue, consume,
}
use agent_authorization_gate.Identity.Proofs.{
  Claims, JwtCheck, accepted, invalid_token, Expected, verify_agent_proof, check_proof, check_key,
  check_claims, check_digest, claim_is, verify_checked, use_jti,
}
use agent_authorization_gate.Identity.Replay.{Call, cache_after, proof_accepted_once}
use agent_authorization_gate.Identity.Challenges.{challenge_consumed_once}
use agent_authorization_gate.Identity.Registry.{registered_then_revoked}

abbrev tenant : Str
tenant = codes "t"

abbrev agent : Str
agent = codes "a"

abbrev no_challenges : RegistrationChallengeCache
no_challenges = record { ttl = 60; challenges = []; ip_requests = [] }

challenge_consumed_once_example :
    ((consume tenant agent
        (codes "n")
        (codes "i")
        70
        (issue tenant agent (codes "n") (codes "i") 10 no_challenges)).0
      ≡ ok tt)
    × ((consume tenant agent
          (codes "n")
          (codes "j")
          65
          (consume tenant agent
            (codes "n")
            (codes "i")
            70
            (issue tenant agent (codes "n") (codes "i") 10 no_challenges)).1).0
        ≡ err challenge_not_found)
challenge_consumed_once_example =
    challenge_consumed_once tenant agent (codes "n") (codes "i") (codes "j") 10 70 65 no_challenges
      (omega arith)

-- Keys are numbers here.
abbrev no_agents : AgentRegistry ℕ
no_agents = record { agents = []; by_kid = [] }

abbrev agents : AgentRegistry ℕ
agents = (register agent 7 (codes "k") none no_agents).1

apart : agent ≢ codes "b"
unfolding str_eq
apart = str_ne agent (codes "b") refl

registered_then_revoked_example :
    (lookup agent agents.agents ≡ some (register agent 7 (codes "k") none no_agents).0)
    × (lookup (codes "k") agents.by_kid ≡ some (register agent 7 (codes "k") none no_agents).0)
    × ((register agent 7 (codes "k") none no_agents).0.public_key ≡ 7)
    × (lookup (codes "b") agents.agents ≡ lookup (codes "b") no_agents.agents)
    × ((h : AgentRegistry ℕ) × (revoke agent agents ≡ ok h)
        × (lookup agent h.agents ≡ none)
        × (lookup (codes "k") h.by_kid ≡ none)
        × (lookup (codes "b") h.agents ≡ lookup (codes "b") no_agents.agents)
        × (revoke agent h ≡ err not_registered))
registered_then_revoked_example =
    registered_then_revoked agent (codes "b") (codes "k") 7 none no_agents apart

-- A proof of the agent, issued at 5, for one action.
abbrev claims : Claims
claims = record {
  sub = agent;
  action = some (codes "read");
  resource = some (codes "db");
  action_digest = none;
  jti = codes "j";
  iat = 5;
}

abbrev payload : Str → Option Claims
payload _ = some claims

abbrev jwt_check : Str → ℕ → ℕ → JwtCheck
jwt_check p k now = if leb 5 now then accepted else invalid_token

abbrev iat_of : Option Claims → ℕ
iat_of none = 0
iat_of (some c) = c.iat

matures :
    (p : Str) (k : ℕ) (t : ℕ) (c : Claims)
    → jwt_check p k t ≡ accepted
    → payload p ≡ some c
    → c.iat ≤ t
matures p k t c h e = let same : claims.iat ≡ c.iat = ap iat_of e in ground arith

abbrev expected : Expected
expected = record {
  agent_id = agent;
  action = codes "read";
  resource = codes "db";
  action_digest = none;
}

abbrev First : Type 0
First =
    (a : RegisteredAgent ℕ) × (cache : Dict ℕ) × (verify_agent_proof payload jwt_check (codes "p")
        agents expected 10 []
      ≡ (ok a, cache))

first : First
unfolding verify_agent_proof check_proof check_key check_claims check_digest claim_is verify_checked
    use_jti register lookup insert keep str_eq
first = (_, _, refl)

abbrev calls : List (Call payload jwt_check)
calls = record { proof = codes "q"; registry = agents; expected = expected; at = 20 } ∷ []

proof_accepted_once_example :
    (verify_agent_proof payload jwt_check
      (codes "p")
      agents
      expected
      30
      (cache_after payload jwt_check calls first.1)).0
    ≢ ok first.0
proof_accepted_once_example =
    proof_accepted_once payload jwt_check matures (codes "p") agents agents expected expected 10 30
      [] first.1 first.0 first.0 calls first.2 (omega arith, omega arith)
