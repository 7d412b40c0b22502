-- ===== src/Identity/Proofs.antt =====
-- `verify_agent_proof` of gateway/identity.py. `payload` is what a proof says without a check of its
-- signature; `jwt_check` is whether `jwt.decode` accepts the proof under a key at a time.
use agent_authorization_gate.Base.{
  ℕ, ◌+◌, Bool, false, not, Option, none, some, [], ◌∷◌, Result, ok, err, ◌>>=◌, Str, str_eq, ltb,
  leb, if◌then◌else◌,
}
use agent_authorization_gate.Base.Dict.{Dict, lookup, insert, keep, contains}
use agent_authorization_gate.Identity.{RegisteredAgent, AgentRegistry, proof_max_age}

-- The claims that the check reads. A missing `sub`, `jti` or `iat` reads as "" or 0.
pub record Claims : Type 0 where
  pub sub : Str
  pub action : Option Str
  pub resource : Option Str
  pub action_digest : Option Str
  pub jti : Str
  pub iat : ℕ

pub data JwtCheck : Type 0 where
  accepted invalid_signature invalid_token : JwtCheck

pub data ProofError : Type 0 where
  invalid_proof agent_mismatch unregistered_agent invalid_proof_signature proof_expired : ProofError
  proof_action_mismatch proof_resource_mismatch proof_digest_missing proof_digest_mismatch :
      ProofError
  proof_replay : ProofError

-- What the caller expects of the proof.
pub record Expected : Type 0 where
  pub agent_id : Str
  pub action : Str
  pub resource : Str
  pub action_digest : Option Str

-- `claims.get(key) == expected`
unfoldable pub claim_is : Option Str → Str → Bool
claim_is none s = false
claim_is (some c) s = str_eq c s

-- The binding to the action's digest, if the caller expects one.
unfoldable pub check_digest : Option Str → Option Str → Result {0, 0} ProofError Unit
check_digest none claimed = ok tt
check_digest (some []) claimed = ok tt
check_digest (some (c ∷ s)) none = err proof_digest_missing
check_digest (some (c ∷ s)) (some []) = err proof_digest_missing
check_digest (some (c ∷ s)) (some (d ∷ t)) =
    if str_eq (d ∷ t) (c ∷ s) then ok tt else err proof_digest_mismatch

-- The checks of the claims, in order.
unfoldable pub check_claims : Claims → Expected → ℕ → Result {0, 0} ProofError Unit
check_claims c e now =
    if ltb (c.iat + proof_max_age) now
    then err proof_expired
    else if not (claim_is c.action e.action)
    then err proof_action_mismatch
    else if not (claim_is c.resource e.resource)
    then err proof_resource_mismatch
    else check_digest e.action_digest c.action_digest

-- The replay check and the cache of the used `jti`s, which is then cleaned.
unfoldable pub use_jti {ℓ} : {A : Type ℓ} → A → Str → ℕ → Dict ℕ → Result ProofError A × Dict ℕ
use_jti agent jti now cache =
    if contains jti cache
    then (err proof_replay, cache)
    else (ok agent, keep (λ v. leb now v) (insert jti (now + proof_max_age) cache))

module _ {ℓ} {K : Type ℓ} (payload : Str → Option Claims) (jwt_check : Str → K → ℕ → JwtCheck) where
  -- The signature under the agent's key, then the claims.
  unfoldable pub check_key :
      Str
      → RegisteredAgent K
      → Claims
      → Expected
      → ℕ
      → Result ProofError (RegisteredAgent K × Claims)
  check_key proof agent c e now = elim (jwt_check proof agent.public_key now) [
    | invalid_signature ↦ err invalid_proof_signature
    | invalid_token ↦ err invalid_proof
    | accepted ↦ (do _ ← check_claims c e now; ok (agent, c))
  ]

  -- The checks before the replay check, which do not touch the cache.
  unfoldable pub check_proof :
      Str → AgentRegistry K → Expected → ℕ → Result ProofError (RegisteredAgent K × Claims)
  check_proof proof registry e now = elim (payload proof) [
    | none ↦ err invalid_proof
    | some c ↦
        if not (str_eq c.sub e.agent_id)
        then err agent_mismatch
        else elim (lookup c.sub registry.agents) [
          | none ↦ err unregistered_agent
          | some agent ↦ check_key proof agent c e now
        ]
  ]

  unfoldable pub verify_checked :
      ℕ
      → Dict ℕ
      → Result ProofError (RegisteredAgent K × Claims)
      → Result ProofError (RegisteredAgent K) × Dict ℕ
  verify_checked now cache (err e) = (err e, cache)
  verify_checked now cache (ok (agent, c)) = use_jti agent c.jti now cache

  unfoldable pub verify_agent_proof :
      Str → AgentRegistry K → Expected → ℕ → Dict ℕ → Result ProofError (RegisteredAgent K) × Dict ℕ
  verify_agent_proof proof registry e now cache =
      verify_checked now cache (check_proof proof registry e now)
