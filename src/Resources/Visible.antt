-- ===== src/Resources/Visible.antt =====
-- What gateway/resources.py answers after a registration and a revocation.
use agent_authorization_gate.Base.{
  ℕ, zero, suc, ◌-◌, ◌≤◌, ◌≡◌, refl, ap, ◌∙◌, Bool, true, false, Bool-cases, inl, inr, none, some,
  [], ◌∷◌, ◌++◌, ok, err, Str, str_eq_refl, arith, length, drop, length-append, ◌⊎◌,
}
use agent_authorization_gate.Base.Dict.{Dict, lookup, insert, erase, lookup-insert, lookup-erase}
use agent_authorization_gate.Resources.{
  Status, active, revoked, Resource, ResourceRegistry, not_actively_registered, cache_max, trim,
  cache_put, register, revoke_entry, revoke, is_registered_and_active, is_active_status,
  validate_resource_id, validate_display_name,
}

-- The last entry of a cache survives the trim, and its value is the last one of its key.
lookup-trimmed :
    (n : ℕ) (k : Str) (v : Bool × ℕ) (d : Dict (Bool × ℕ))
    → n ≤ length d
    → lookup k d ≡ none
    → lookup k (drop n (d ++ (k, v) ∷ [])) ≡ some v
unfolding lookup
lookup-trimmed zero k v [] h e = rw (str_eq_refl k) refl
lookup-trimmed zero k v ((j, w) ∷ d) h e = ground (arith, lookup-trimmed zero k v d)
lookup-trimmed (suc n) k v [] h e = absurd (omega arith)
lookup-trimmed (suc n) k v ((j, w) ∷ d) h e = ground (arith, lookup-trimmed n k v d)

cached :
    (k : Str) (v : Bool) (now : ℕ) (d : Dict (Bool × ℕ))
    → lookup k (cache_put k v now d) ≡ some (v, now)
unfolding cache_put trim
cached k v now d =
    let rest = erase k d in
    let gone : lookup k rest ≡ none = lookup-erase k k d ∙ rw (str_eq_refl k) refl in
    let size = length-append rest ((k, (v, now)) ∷ []) in
    lookup-trimmed (length (rest ++ (k, (v, now)) ∷ []) - cache_max) k (v, now) rest (omega arith)
      gone

-- What the registry answers when the cache and the memory agree.
agreed :
    (resource_id : Str) (b : Bool) (now later : ℕ) (g : ResourceRegistry)
    → lookup resource_id g.cache ≡ some (b, now)
    → is_active_status (lookup resource_id g.memory) ≡ b
    → is_registered_and_active resource_id later g ≡ b
unfolding is_registered_and_active
agreed resource_id b now later g c m = ground arith

-- The registry after a change of one resource.
abbrev changed : Str → Bool → ℕ → Resource → ResourceRegistry → ResourceRegistry
changed resource_id b now doc g = record {
  cache = cache_put resource_id b now g.cache;
  memory = insert resource_id doc g.memory;
}

changed_visible :
    (resource_id : Str) (b : Bool) (now later : ℕ) (doc : Resource) (g : ResourceRegistry)
    → is_active_status (some doc) ≡ b
    → (is_registered_and_active resource_id later (changed resource_id b now doc g) ≡ b)
      × (lookup resource_id (changed resource_id b now doc g).memory ≡ some doc)
changed_visible resource_id b now later doc g s =
    let stored : lookup resource_id (insert resource_id doc g.memory) ≡ some doc =
      lookup-insert resource_id resource_id doc g.memory ∙ rw (str_eq_refl resource_id) refl in
    (
      agreed resource_id b now later (changed resource_id b now doc g)
          (cached resource_id b now g.cache) (ap is_active_status stored ∙ s),
      stored,
    )

-- `register` that returned.
register-ok :
    (resource_id display_name by : Str) (now : ℕ) (g h : ResourceRegistry) (doc : Resource)
    → register resource_id display_name by now g ≡ (ok doc, h)
    → (doc.status ≡ active) × (h ≡ changed resource_id true now doc g)
unfolding register
register-ok resource_id display_name by now g h doc e =
    elim (Bool-cases (validate_resource_id resource_id)) [
      | inr bad ↦ cc (rw bad at e)
      | inl good ↦ elim (Bool-cases (validate_display_name display_name)) [
        | inr bad ↦ cc (rw bad at (rw good at e))
        | inl named ↦ elim (Bool-cases (is_active_status (lookup resource_id g.memory))) [
          | inl taken ↦ cc (rw taken at (rw named at (rw good at e)))
          | inr vacant ↦ let done = rw vacant at (rw named at (rw good at e)) in (cc done, cc done)
        ]
      ]
    ]

Status-cases : (s : Status) → (s ≡ active) ⊎ (s ≡ revoked)
Status-cases active = inl refl
Status-cases revoked = inr refl

-- What `revoke` does of an active document.
abbrev revoked_doc : Str → Resource → Resource
revoked_doc by r = record r { status = revoked; revoked_by = some by }

revoke_active :
    (resource_id by : Str) (now : ℕ) (r : Resource) (g : ResourceRegistry)
    → r.status ≡ active
    → revoke_entry resource_id by now (some r) g
      ≡ (ok (revoked_doc by r), changed resource_id false now (revoked_doc by r) g)
unfolding revoke_entry
revoke_active resource_id by now r g s = rw (s, revoke_entry) refl

revoked_again :
    (resource_id by : Str) (now : ℕ) (doc : Resource) (g : ResourceRegistry)
    → doc.status ≡ revoked
    → revoke_entry resource_id by now (some doc) g ≡ (err not_actively_registered, g)
unfolding revoke_entry
revoked_again resource_id by now doc g s = rw (s, revoke_entry) refl

-- After `register` returned, the resource is registered and active at any time, whatever the cache
-- held. Then `revoke` returns, after it the resource is not registered and active at any time, and a
-- second `revoke` raises and changes nothing.
pub changes_visible :
    (resource_id display_name by by' : Str) (now ended later : ℕ) (g h : ResourceRegistry)
    (doc : Resource)
    → register resource_id display_name by now g ≡ (ok doc, h)
    → (is_registered_and_active resource_id later h ≡ true)
      × ((gone : Resource) × (i : ResourceRegistry) × (revoke resource_id by' ended h
            ≡ (ok gone, i))
          × (is_registered_and_active resource_id later i ≡ false)
          × (revoke resource_id by' later i ≡ (err not_actively_registered, i)))
unfolding revoke
changes_visible resource_id display_name by by' now ended later g h doc e =
    let (s, p) = register-ok resource_id display_name by now g h doc e in
    let gone = revoked_doc by' doc in
    let i = changed resource_id false ended gone h in
    let (shown, found) = changed_visible resource_id true now later doc g (rw s refl) in
    let (denied, stored) = changed_visible resource_id false ended later gone h refl in
    let found' : lookup resource_id h.memory ≡ some doc = rw p found in
    (
      rw p shown,
      (
        gone,
        i,
        ap (λ o. revoke_entry resource_id by' ended o h) found'
            ∙ revoke_active resource_id by' ended doc h s,
        denied,
        ap (λ o. revoke_entry resource_id by' later o i) stored
            ∙ revoked_again resource_id by' later gone i refl,
      ),
    )
