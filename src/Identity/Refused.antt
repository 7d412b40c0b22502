-- ===== src/Identity/Refused.antt =====
-- What a refused proof leaves in the cache of `verify_agent_proof` of gateway/identity.py.
use agent_authorization_gate.Base.{ℕ, ◌≡◌, Bool-cases, inl, inr, Option, Result, ok, err, Str}
use agent_authorization_gate.Base.Dict.{Dict, contains}
use agent_authorization_gate.Identity.{AgentRegistry, RegisteredAgent}
use agent_authorization_gate.Identity.Proofs.{
  Claims, JwtCheck, ProofError, Expected, check_proof, use_jti, verify_checked, verify_agent_proof,
}

-- A proof that is refused, for its replay or before, leaves the cache as it was.
use_jti-refused {ℓ} :
    {A : Type ℓ} (agent : A) (jti : Str) (now : ℕ) (cache cache' : Dict ℕ) (x : ProofError)
    → use_jti agent jti now cache ≡ (err x, cache')
    → cache' ≡ cache
unfolding use_jti
use_jti-refused agent jti now cache cache' x e = elim (Bool-cases (contains jti cache)) [
  | inl used ↦ cc (rw used at e)
  | inr new ↦ cc (rw new at e)
]

module _ {ℓ} {K : Type ℓ} (payload : Str → Option Claims) (jwt_check : Str → K → ℕ → JwtCheck) where
  verify_checked-refused :
      (now : ℕ) (cache cache' : Dict ℕ) (m : Result ProofError (RegisteredAgent K × Claims))
      (x : ProofError)
      → verify_checked payload jwt_check now cache m ≡ (err x, cache')
      → cache' ≡ cache
  unfolding verify_checked
  verify_checked-refused now cache cache' (err y) x e = cc
  verify_checked-refused now cache cache' (ok (agent, c)) x e =
      use_jti-refused agent c.jti now cache cache' x e

  pub verify_agent_proof-refused :
      (proof : Str) (registry : AgentRegistry K) (w : Expected) (now : ℕ) (cache cache' : Dict ℕ)
      (x : ProofError)
      → verify_agent_proof payload jwt_check proof registry w now cache ≡ (err x, cache')
      → cache' ≡ cache
  unfolding verify_agent_proof
  verify_agent_proof-refused proof registry w now cache cache' x e =
      verify_checked-refused now cache cache' (check_proof payload jwt_check proof registry w now) x
        e
