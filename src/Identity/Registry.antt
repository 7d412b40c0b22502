-- ===== src/Identity/Registry.antt =====
-- The agent registry of gateway/identity.py in memory.
use agent_authorization_gate.Base.{
  ◌≡◌, ◌≢◌, refl, ◌∙◌, Bool-cases, inl, inr, Option, none, some, ok, err, Str, str_eq, str_eq_iff,
  str_eq_refl,
}
use agent_authorization_gate.Base.Dict.{Dict, lookup, insert, erase, lookup-insert, lookup-erase}
use agent_authorization_gate.Identity.{
  RegisteredAgent, AgentRegistry, not_registered, register, revoke, forget_kid,
}

pub lookup_same {ℓ} : {V : Type ℓ} (k : Str) (v : V) (d : Dict V) → lookup k (insert k v d) ≡ some v
lookup_same k v d = lookup-insert k k v d ∙ rw (str_eq_refl k) refl

lookup_other {ℓ} :
    {V : Type ℓ} (k j : Str) (v : V) (d : Dict V) → k ≢ j → lookup j (insert k v d) ≡ lookup j d
lookup_other k j v d n = elim (Bool-cases (str_eq k j)) [
  | inl same ↦ absurd (n ((str_eq_iff k j).0 same))
  | inr apart ↦ lookup-insert k j v d ∙ rw apart refl
]

pub erased_same {ℓ} : {V : Type ℓ} (k : Str) (d : Dict V) → lookup k (erase k d) ≡ none
erased_same k d = lookup-erase k k d ∙ rw (str_eq_refl k) refl

pub erased_other {ℓ} :
    {V : Type ℓ} (k j : Str) (d : Dict V) → k ≢ j → lookup j (erase k d) ≡ lookup j d
erased_other k j d n = elim (Bool-cases (str_eq k j)) [
  | inl same ↦ absurd (n ((str_eq_iff k j).0 same))
  | inr apart ↦ lookup-erase k j d ∙ rw apart refl
]

module _ {ℓ} {K : Type ℓ} where
  -- After `register` the agent is found by its id and by its `kid`, with the new key, whatever was
  -- registered before; another id finds what it found. `revoke` then finds the agent, after it
  -- neither the id nor the `kid` finds any agent, another id finds what it found, and a second
  -- `revoke` raises.
  pub registered_then_revoked :
      (agent_id other kid : Str) (key : K) (url : Option Str) (g : AgentRegistry K)
      → agent_id ≢ other
      → (lookup agent_id (register agent_id key kid url g).1.agents
          ≡ some (register agent_id key kid url g).0)
        × (lookup kid (register agent_id key kid url g).1.by_kid
            ≡ some (register agent_id key kid url g).0)
        × ((register agent_id key kid url g).0.public_key ≡ key)
        × (lookup other (register agent_id key kid url g).1.agents ≡ lookup other g.agents)
        × ((h : AgentRegistry K) × (revoke agent_id (register agent_id key kid url g).1 ≡ ok h)
            × (lookup agent_id h.agents ≡ none)
            × (lookup kid h.by_kid ≡ none)
            × (lookup other h.agents ≡ lookup other g.agents)
            × (revoke agent_id h ≡ err not_registered))
  unfolding register revoke
  registered_then_revoked agent_id other kid key url g n =
      let agent : RegisteredAgent K = record {
        agent_id = agent_id;
        public_key = key;
        kid = kid;
        live_challenge_url = url;
      } in
      let agents = insert agent_id agent g.agents in
      let by_kid = insert kid agent (forget_kid (lookup agent_id g.agents) g.by_kid) in
      let found = lookup_same agent_id agent g.agents in
      let gone = erased_same agent_id agents in
      (
        found,
        lookup_same kid agent _,
        refl,
        lookup_other agent_id other agent g.agents n,
        (
          record { agents = erase agent_id agents; by_kid = erase kid by_kid },
          rw (found, revoke) refl,
          gone,
          erased_same kid by_kid,
          erased_other agent_id other agents n ∙ lookup_other agent_id other agent g.agents n,
          rw (gone, revoke) refl,
        ),
      )
