-- ===== src/Store/Saved.antt =====
-- What gateway/store.py gives back, against the list of what was saved.
use agent_authorization_gate.Base.{
  ◌≡◌, refl, ap, ◌∙◌, not, ◌&&◌, Bool-cases, inl, inr, Option, some, none, List, [], ◌∷◌, ◌++◌, Str,
  codes, str_eq, str_eq_iff, All, if◌then◌else◌,
}
use agent_authorization_gate.Base.Dict.{lookup, lookup-insert}
use agent_authorization_gate.Policy.Keys.{NoColon}
use agent_authorization_gate.Store.{
  or_empty, StoredReceipt, StatsValue, object, InMemoryStore, key, get_chain, save_receipt,
  get_receipt, save_keys, save_stats, get_stats, save_policy, get_policy, save_rate_limits,
  get_rate_limits,
}
use agent_authorization_gate.Store.Entries.{
  tenant_not_key, key_not_tenant, put_other, put_here, names_apart, names_apart_too, same_name,
  other_name, indexed,
}

-- A save, by its method and its tenant.
pub data Save {ℓ κ} (R : Type ℓ) (V : Type κ) : Type (ℓ ⊔ κ) where
  receipt : Str → StoredReceipt R → Save R V
  keys stats policy rate_limits : Str → V → Save R V

module _ {ℓ κ} {R : Type ℓ} {V : Type κ} where
  abbrev pub tenant_of : Save R V → Str
  tenant_of (receipt t _) = t
  tenant_of (keys t _) = t
  tenant_of (stats t _) = t
  tenant_of (policy t _) = t
  tenant_of (rate_limits t _) = t

  abbrev pub empty_store : InMemoryStore R V
  empty_store = record { receipts = []; receipt_index = []; keys = []; stats = []; liveness = [] }

  -- The store after these saves, the most recent one first.
  abbrev pub after : List (Save R V) → InMemoryStore R V
  after [] = empty_store
  after (receipt t r ∷ saves) = save_receipt t r (after saves)
  after (keys t v ∷ saves) = save_keys t v (after saves)
  after (stats t v ∷ saves) = save_stats t v (after saves)
  after (policy t v ∷ saves) = save_policy t v (after saves)
  after (rate_limits t v ∷ saves) = save_rate_limits t v (after saves)

  -- The receipts of a tenant, the oldest first.
  abbrev pub chain_of : Str → List (Save R V) → List (StoredReceipt R)
  chain_of u [] = []
  chain_of u (receipt t r ∷ saves) =
      if str_eq t u then chain_of u saves ++ r ∷ [] else chain_of u saves
  chain_of u (_ ∷ saves) = chain_of u saves

  -- The last receipt of a tenant with a hash; none has the empty hash.
  abbrev pub receipt_of : Str → Str → List (Save R V) → Option (StoredReceipt R)
  receipt_of u hash [] = none
  receipt_of u hash (receipt t r ∷ saves) =
      if str_eq t u && str_eq r.receipt_hash hash && not (str_eq r.receipt_hash [])
      then some r
      else receipt_of u hash saves
  receipt_of u hash (_ ∷ saves) = receipt_of u hash saves

  abbrev pub stats_of : Str → List (Save R V) → Option (StatsValue V)
  stats_of u [] = none
  stats_of u (stats t v ∷ saves) = if str_eq t u then some (object v) else stats_of u saves
  stats_of u (_ ∷ saves) = stats_of u saves

  abbrev pub policy_of : Str → List (Save R V) → Option (StatsValue V)
  policy_of u [] = none
  policy_of u (policy t v ∷ saves) = if str_eq t u then some (object v) else policy_of u saves
  policy_of u (_ ∷ saves) = policy_of u saves

  abbrev pub rate_limits_of : Str → List (Save R V) → Option (StatsValue V)
  rate_limits_of u [] = none
  rate_limits_of u (rate_limits t v ∷ saves) =
      if str_eq t u then some (object v) else rate_limits_of u saves
  rate_limits_of u (_ ∷ saves) = rate_limits_of u saves

  chain-after : (u : Str) (saves : List (Save R V)) → get_chain u (after saves) ≡ chain_of u saves
  unfolding save_receipt lookup
  chain-after u [] = refl
  chain-after u (receipt t r ∷ saves) =
      ap or_empty (lookup-insert t u (get_chain t (after saves) ++ r ∷ []) (after saves).receipts)
      ∙ (elim (Bool-cases (str_eq t u)) [
        | inl same ↦
            let e : t ≡ u = (str_eq_iff t u).0 same in
            rw same
              (ap (λ l. l ++ r ∷ []) (ap (λ v. get_chain v (after saves)) e ∙ chain-after u saves))
        | inr apart ↦ rw apart (chain-after u saves)
      ])
  chain-after u (keys t v ∷ saves) = chain-after u saves
  chain-after u (stats t v ∷ saves) = chain-after u saves
  chain-after u (policy t v ∷ saves) = chain-after u saves
  chain-after u (rate_limits t v ∷ saves) = chain-after u saves

  receipt-after :
      (u hash : Str) (saves : List (Save R V))
      → NoColon u
      → All (λ s. NoColon (tenant_of s)) saves
      → get_receipt u hash (after saves) ≡ receipt_of u hash saves
  unfolding save_receipt lookup
  receipt-after u hash [] p q = refl
  receipt-after u hash (receipt t r ∷ saves) p (q, qs) =
      indexed t u r r.receipt_hash hash (after saves).receipt_index p q
      ∙ ap
          (λ rest.
            if str_eq t u && str_eq r.receipt_hash hash && not (str_eq r.receipt_hash [])
            then some r
            else rest)
          (receipt-after u hash saves p qs)
  receipt-after u hash (keys t v ∷ saves) p (q, qs) = receipt-after u hash saves p qs
  receipt-after u hash (stats t v ∷ saves) p (q, qs) = receipt-after u hash saves p qs
  receipt-after u hash (policy t v ∷ saves) p (q, qs) = receipt-after u hash saves p qs
  receipt-after u hash (rate_limits t v ∷ saves) p (q, qs) = receipt-after u hash saves p qs

  stats-after :
      (u : Str) (saves : List (Save R V))
      → NoColon u
      → All (λ s. NoColon (tenant_of s)) saves
      → get_stats u (after saves) ≡ stats_of u saves
  unfolding lookup save_receipt
  stats-after u [] p q = refl
  stats-after u (receipt t r ∷ saves) p (q, qs) = stats-after u saves p qs
  stats-after u (keys t v ∷ saves) p (q, qs) = stats-after u saves p qs
  stats-after u (stats t v ∷ saves) p (q, qs) =
      put_here t u t u v (after saves).stats refl (stats-after u saves p qs)
  stats-after u (policy t v ∷ saves) p (q, qs) =
      put_other (key t (codes "policy")) u v (after saves).stats
        (key_not_tenant u t (codes "policy") p) (stats-after u saves p qs)
  stats-after u (rate_limits t v ∷ saves) p (q, qs) =
      put_other (key t (codes "rate_limits")) u v (after saves).stats
        (key_not_tenant u t (codes "rate_limits") p) (stats-after u saves p qs)

  policy-after :
      (u : Str) (saves : List (Save R V))
      → NoColon u
      → All (λ s. NoColon (tenant_of s)) saves
      → get_policy u (after saves) ≡ policy_of u saves
  unfolding lookup save_receipt
  policy-after u [] p q = refl
  policy-after u (receipt t r ∷ saves) p (q, qs) = policy-after u saves p qs
  policy-after u (keys t v ∷ saves) p (q, qs) = policy-after u saves p qs
  policy-after u (stats t v ∷ saves) p (q, qs) =
      put_other t (key u (codes "policy")) v (after saves).stats
        (tenant_not_key t u (codes "policy") q) (policy-after u saves p qs)
  policy-after u (policy t v ∷ saves) p (q, qs) =
      put_here (key t (codes "policy")) (key u (codes "policy")) t u v (after saves).stats
        (same_name t u (codes "policy") q p) (policy-after u saves p qs)
  policy-after u (rate_limits t v ∷ saves) p (q, qs) =
      put_other (key t (codes "rate_limits")) (key u (codes "policy")) v (after saves).stats
        (other_name t u (codes "rate_limits") (codes "policy") q p names_apart_too)
        (policy-after u saves p qs)

  rate_limits-after :
      (u : Str) (saves : List (Save R V))
      → NoColon u
      → All (λ s. NoColon (tenant_of s)) saves
      → get_rate_limits u (after saves) ≡ rate_limits_of u saves
  unfolding lookup save_receipt
  rate_limits-after u [] p q = refl
  rate_limits-after u (receipt t r ∷ saves) p (q, qs) = rate_limits-after u saves p qs
  rate_limits-after u (keys t v ∷ saves) p (q, qs) = rate_limits-after u saves p qs
  rate_limits-after u (stats t v ∷ saves) p (q, qs) =
      put_other t (key u (codes "rate_limits")) v (after saves).stats
        (tenant_not_key t u (codes "rate_limits") q) (rate_limits-after u saves p qs)
  rate_limits-after u (policy t v ∷ saves) p (q, qs) =
      put_other (key t (codes "policy")) (key u (codes "rate_limits")) v (after saves).stats
        (other_name t u (codes "policy") (codes "rate_limits") q p names_apart)
        (rate_limits-after u saves p qs)
  rate_limits-after u (rate_limits t v ∷ saves) p (q, qs) =
      put_here (key t (codes "rate_limits")) (key u (codes "rate_limits")) t u v (after saves).stats
        (same_name t u (codes "rate_limits") q p) (rate_limits-after u saves p qs)

  -- After any saves of receipts, keys, statistics, policies and rate limits to a new store, for tenants
  -- without a colon: the chain of a tenant is the list of the receipts that were saved for it, in
  -- order; under a hash stands the last receipt that was saved for the tenant with this hash, and under
  -- the empty hash none; and the statistics, the policy and the rate limits of a tenant are the last
  -- ones that were saved for it, whatever of these was saved in between.
  pub store_refines :
      (tenant hash : Str) (saves : List (Save R V))
      → NoColon tenant
      → All (λ s. NoColon (tenant_of s)) saves
      → (get_chain tenant (after saves) ≡ chain_of tenant saves)
        × (get_receipt tenant hash (after saves) ≡ receipt_of tenant hash saves)
        × (get_stats tenant (after saves) ≡ stats_of tenant saves)
        × (get_policy tenant (after saves) ≡ policy_of tenant saves)
        × (get_rate_limits tenant (after saves) ≡ rate_limits_of tenant saves)
  store_refines tenant hash saves p q = (
    chain-after tenant saves,
    receipt-after tenant hash saves p q,
    stats-after tenant saves p q,
    policy-after tenant saves p q,
    rate_limits-after tenant saves p q,
  )
