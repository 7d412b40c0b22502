-- ===== src/Identity.antt =====
-- gateway/identity.py: the agent registry in memory, the registration challenges, and the check of an
-- agent's proof. A key is what `_parse_jwk` returns; `jwt.decode` and the Ed25519 check are arguments.
-- Times are whole numbers of seconds; the clock is read once for each call.
pub mod Challenges
pub mod Proofs
pub mod Spent
pub mod Replay
pub mod Registry
pub mod Refused
pub mod Tests
use agent_authorization_gate.Base.{
  ℕ, ◌+◌, ◌-◌, Bool, true, false, not, ◌&&◌, Option, none, some, List, [], ◌∷◌, ◌++◌, Result, ok,
  err, Str, codes, str_eq, length, filter, ltb, leb, if◌then◌else◌,
}
use agent_authorization_gate.Base.Dict.{Dict, lookup, insert, erase, keep}

-- `RegisteredAgent`, over the type of public keys.
pub record RegisteredAgent {ℓ} (K : Type ℓ) : Type ℓ where
  pub agent_id : Str
  pub public_key : K
  pub kid : Str
  pub live_challenge_url : Option Str

pub record AgentRegistry {ℓ} (K : Type ℓ) : Type ℓ where
  pub agents : Dict (RegisteredAgent K)
  pub by_kid : Dict (RegisteredAgent K)

-- The ValueError of an agent that is not registered.
pub data NotRegistered : Type 0 where
  not_registered : NotRegistered

module _ {ℓ} {K : Type ℓ} where
  -- `self._by_kid.pop(existing.kid, None)` for the agent that the id had before.
  unfoldable pub forget_kid :
      Option (RegisteredAgent K) → Dict (RegisteredAgent K) → Dict (RegisteredAgent K)
  forget_kid none by_kid = by_kid
  forget_kid (some a) by_kid = erase a.kid by_kid

  -- `register`, after the key is parsed.
  unfoldable pub register :
      Str → K → Str → Option Str → AgentRegistry K → RegisteredAgent K × AgentRegistry K
  register agent_id key kid url g =
      let agent : RegisteredAgent K = record {
        agent_id = agent_id;
        public_key = key;
        kid = kid;
        live_challenge_url = url;
      } in
      (
        agent,
        record {
          agents = insert agent_id agent g.agents;
          by_kid = insert kid agent (forget_kid (lookup agent_id g.agents) g.by_kid);
        },
      )

  unfoldable pub revoke : Str → AgentRegistry K → Result NotRegistered (AgentRegistry K)
  revoke agent_id g = elim (lookup agent_id g.agents) [
    | none ↦ err not_registered
    | some a ↦ ok (record { agents = erase agent_id g.agents; by_kid = erase a.kid g.by_kid })
  ]

-- `_CHALLENGE_TTL`, `_CHALLENGE_RATE_LIMIT`, `_CHALLENGE_RATE_WINDOW`, `_PROOF_MAX_AGE`
abbrev pub challenge_rate_limit : ℕ
challenge_rate_limit = 10

abbrev pub challenge_rate_window : ℕ
challenge_rate_window = 60

abbrev pub proof_max_age : ℕ
proof_max_age = 30

pub record Challenge : Type 0 where
  pub challenge_id : Str
  pub expires_at : ℕ
  pub consumed : Bool

pub record RegistrationChallengeCache : Type 0 where
  pub ttl : ℕ
  pub challenges : Dict Challenge
  pub ip_requests : Dict (List ℕ)

-- `f"{tenant}:{agent_id}:{nonce}"`
unfoldable pub challenge_key : Str → Str → Str → Str
challenge_key tenant agent_id nonce = tenant ++ b':' ∷ (agent_id ++ b':' ∷ nonce)

abbrev pub requests_of : Option (List ℕ) → List ℕ
requests_of none = []
requests_of (some stamps) = stamps

-- `now - t < _CHALLENGE_RATE_WINDOW`
abbrev pub recent : ℕ → ℕ → Bool
recent now t = ltb now (t + challenge_rate_window)

-- `RegistrationChallengeCache.check_rate_limit`
unfoldable pub check_rate_limit :
    Str → ℕ → RegistrationChallengeCache → Bool × RegistrationChallengeCache
check_rate_limit client_ip now c =
    let history = filter (recent now) (requests_of (lookup client_ip c.ip_requests)) in
    if leb challenge_rate_limit (length history)
    then (false, record c { ip_requests = insert client_ip history c.ip_requests })
    else (true, record c { ip_requests = insert client_ip (history ++ now ∷ []) c.ip_requests })

-- `_gc`: a challenge goes when `now > expires_at`.
unfoldable pub gc : ℕ → RegistrationChallengeCache → RegistrationChallengeCache
gc now c = record c { challenges = keep (λ (ch : Challenge). leb now ch.expires_at) c.challenges }

-- `issue`, on the nonce and the id that it draws.
unfoldable pub issue :
    Str → Str → Str → Str → ℕ → RegistrationChallengeCache → RegistrationChallengeCache
issue tenant agent_id nonce challenge_id now c =
    let swept = gc now c in
    let ch : Challenge = record {
      challenge_id = challenge_id;
      expires_at = now + c.ttl;
      consumed = false;
    } in
    record swept { challenges = insert (challenge_key tenant agent_id nonce) ch swept.challenges }

pub data ChallengeError : Type 0 where
  challenge_not_found challenge_replay challenge_expired challenge_id_mismatch : ChallengeError

-- `consume` on the entry of its key, after `_gc`.
unfoldable pub consume_entry :
    Str
    → Str
    → ℕ
    → Option Challenge
    → RegistrationChallengeCache
    → Result {0, 0} ChallengeError Unit × RegistrationChallengeCache
consume_entry key challenge_id now none c = (err challenge_not_found, c)
consume_entry key challenge_id now (some ch) c =
    if ch.consumed
    then (err challenge_replay, c)
    else if ltb ch.expires_at now
    then (err challenge_expired, c)
    else if not (str_eq ch.challenge_id challenge_id)
    then (err challenge_id_mismatch, c)
    else (ok tt, record c { challenges = erase key c.challenges })

unfoldable pub consume :
    Str
    → Str
    → Str
    → Str
    → ℕ
    → RegistrationChallengeCache
    → Result {0, 0} ChallengeError Unit × RegistrationChallengeCache
consume tenant agent_id nonce challenge_id now c =
    let swept = gc now c in
    let key = challenge_key tenant agent_id nonce in
    consume_entry key challenge_id now (lookup key swept.challenges) swept
