-- ===== src/Store/Tests.antt =====
-- An instance of the theorem on gateway/store.py; objects are numbers here.
use agent_authorization_gate.Base.{ℕ, ◌≡◌, List, [], ◌∷◌, Str, codes, All, arith}
use agent_authorization_gate.Policy.Keys.{NoColon}
use agent_authorization_gate.Store.{
  StoredReceipt, get_chain, get_receipt, get_stats, get_policy, get_rate_limits,
}
use agent_authorization_gate.Store.Saved.{
  Save, receipt, stats, policy, rate_limits, tenant_of, after, chain_of, receipt_of, stats_of,
  policy_of, rate_limits_of, store_refines,
}

abbrev stored : Str → ℕ → StoredReceipt ℕ
stored hash n = record { receipt_hash = hash; content = n }

abbrev hash : Str
hash = codes "sha256:00"

abbrev saves : List (Save ℕ ℕ)
saves =
    policy (codes "t") 6
    ∷ stats (codes "t") 5
    ∷ receipt (codes "t") (stored [] 4)
    ∷ receipt (codes "u") (stored hash 3)
    ∷ rate_limits (codes "t") 2
    ∷ receipt (codes "t") (stored hash 1)
    ∷ policy (codes "t") 0
    ∷ []

t-NoColon : NoColon (codes "t")
t-NoColon = (omega arith, tt)

u-NoColon : NoColon (codes "u")
u-NoColon = (omega arith, tt)

saves-NoColon : All (λ s. NoColon (tenant_of s)) saves
saves-NoColon =
    (t-NoColon, (t-NoColon, (t-NoColon, (u-NoColon, (t-NoColon, (t-NoColon, (t-NoColon, tt)))))))

store_refines_example :
    (get_chain (codes "t") (after saves) ≡ chain_of (codes "t") saves)
    × (get_receipt (codes "t") hash (after saves) ≡ receipt_of (codes "t") hash saves)
    × (get_stats (codes "t") (after saves) ≡ stats_of (codes "t") saves)
    × (get_policy (codes "t") (after saves) ≡ policy_of (codes "t") saves)
    × (get_rate_limits (codes "t") (after saves) ≡ rate_limits_of (codes "t") saves)
store_refines_example = store_refines (codes "t") hash saves t-NoColon saves-NoColon
