-- ===== src/Store/Entries.antt =====
-- The keys `f"{tenant}:{name}"` of gateway/store.py, and the dicts under them after one save.
use agent_authorization_gate.Base.{
  ◌≡◌, ◌≢◌, refl, sym, ap, ◌∙◌, Bool, true, false, not, ◌&&◌, Bool-cases, inl, inr, Option, some,
  [], ◌∷◌, Str, codes, str_eq, str_eq_iff, str_eq_refl, arith, if◌then◌else◌,
}
use agent_authorization_gate.Base.Dict.{Dict, lookup, insert, lookup-insert}
use agent_authorization_gate.Policy.Keys.{NoColon, colon_splits}
use agent_authorization_gate.Store.{index_receipt, StoredReceipt, StatsValue, object, key}

bool_eq : (a b : Bool) → (a ≡ true → b ≡ true) → (b ≡ true → a ≡ true) → a ≡ b
bool_eq true b f g = sym (f refl)
bool_eq false true f g = g refl
bool_eq false false f g = refl

-- Names behind tenants without a colon tell tenants and names apart.
key_eq :
    (t u a b : Str)
    → NoColon t
    → NoColon u
    → str_eq (key t a) (key u b) ≡ (str_eq t u && str_eq a b)
unfolding key
key_eq t u a b p q =
    bool_eq (str_eq (key t a) (key u b)) (str_eq t u && str_eq a b)
      (λ e.
        let (same, names) = colon_splits t u a b p q ((str_eq_iff (key t a) (key u b)).0 e) in
        rw ((str_eq_iff t u).1 same) ((str_eq_iff a b).1 names))
      (λ e.
        let same : t ≡ u = (str_eq_iff t u).0 (ground arith) in
        let names : a ≡ b = (str_eq_iff a b).0 (ground arith) in
        rw (same, names) (str_eq_refl (key u b)))

-- A tenant without a colon is no key.
tenant_apart : (t u name : Str) → NoColon t → t ≢ key u name
unfolding key
tenant_apart [] [] name p e = cc
tenant_apart [] (d ∷ u) name p e = cc
tenant_apart (c ∷ t) [] name (n, p) e = n (cc)
tenant_apart (c ∷ t) (d ∷ u) name (n, p) e = tenant_apart t u name p (cc)

pub tenant_not_key : (t u name : Str) → NoColon t → str_eq t (key u name) ≡ false
tenant_not_key t u name p = elim (Bool-cases (str_eq t (key u name))) [
  | inl same ↦ absurd (tenant_apart t u name p ((str_eq_iff t (key u name)).0 same))
  | inr apart ↦ apart
]

pub key_not_tenant : (t u name : Str) → NoColon t → str_eq (key u name) t ≡ false
key_not_tenant t u name p = elim (Bool-cases (str_eq (key u name) t)) [
  | inl same ↦ absurd (tenant_apart t u name p (sym ((str_eq_iff (key u name) t).0 same)))
  | inr apart ↦ apart
]

put {κ} :
    {V : Type κ} (k j : Str) (v : V) (d : Dict (StatsValue V)) {b : Bool}
    → str_eq k j ≡ b
    → lookup j (insert k (object v) d) ≡ (if b then some (object v) else lookup j d)
put k j v d e =
    lookup-insert k j (object v) d ∙ ap (λ c. if c then some (object v) else lookup j d) e

-- After a save of an object that is not under the key, or under the key of this tenant.
pub put_other {κ} :
    {V : Type κ} (k j : Str) (v : V) (d : Dict (StatsValue V)) {o : Option (StatsValue V)}
    → str_eq k j ≡ false
    → lookup j d ≡ o
    → lookup j (insert k (object v) d) ≡ o
put_other k j v d e rest = put k j v d e ∙ rest

pub put_here {κ} :
    {V : Type κ} (k j t u : Str) (v : V) (d : Dict (StatsValue V)) {o : Option (StatsValue V)}
    → str_eq k j ≡ str_eq t u
    → lookup j d ≡ o
    → lookup j (insert k (object v) d) ≡ (if str_eq t u then some (object v) else o)
put_here k j t u v d e rest =
    put k j v d e ∙ ap (λ l. if str_eq t u then some (object v) else l) rest

pub names_apart : str_eq (codes "policy") (codes "rate_limits") ≡ false
unfolding str_eq
names_apart = refl

pub names_apart_too : str_eq (codes "rate_limits") (codes "policy") ≡ false
unfolding str_eq
names_apart_too = refl

-- One name behind two tenants, and two names.
pub same_name :
    (t u name : Str) → NoColon t → NoColon u → str_eq (key t name) (key u name) ≡ str_eq t u
same_name t u name p q =
    key_eq t u name name p q
    ∙ bool_eq (str_eq t u && str_eq name name) (str_eq t u) (λ e. ground arith)
        (λ e. rw (e, str_eq_refl name) refl)

pub other_name :
    (t u a b : Str)
    → NoColon t
    → NoColon u
    → str_eq a b ≡ false
    → str_eq (key t a) (key u b) ≡ false
other_name t u a b p q e = key_eq t u a b p q ∙ ground (arith, e)

pub indexed {ℓ} :
    {R : Type ℓ} (t u : Str) (r : StoredReceipt R) (hash wanted : Str) (d : Dict (StoredReceipt R))
    → NoColon u
    → NoColon t
    → lookup (key u wanted) (index_receipt t r hash d) ≡ (
        if str_eq t u && str_eq hash wanted && not (str_eq hash [])
        then some r
        else lookup (key u wanted) d)
unfolding str_eq
indexed t u r [] wanted d p q = ground arith
indexed t u r (c ∷ hash) wanted d p q =
    lookup-insert (key t (c ∷ hash)) (key u wanted) r d
    ∙ ap (λ b. if b then some r else lookup (key u wanted) d)
        (key_eq t u (c ∷ hash) wanted q p ∙ ground arith)
