-- ===== src/Identity/Challenges.antt =====
-- The registration challenges of gateway/identity.py are consumed once.
use agent_authorization_gate.Base.{
  ℕ, ◌+◌, ◌≤◌, ◌≡◌, refl, ◌∙◌, Bool, false, none, some, [], ◌∷◌, ok, err, Str, str_eq_refl, arith,
  leb, ltb,
}
use agent_authorization_gate.Base.Dict.{
  Dict, lookup, keep, lookup-insert, lookup-erase, lookup-keep,
}
use agent_authorization_gate.Identity.{
  Challenge, RegistrationChallengeCache, challenge_not_found, challenge_key, gc, issue, consume,
  consume_entry,
}

lookup-keep-none {ℓ} :
    {V : Type ℓ} (p : V → Bool) (k : Str) (d : Dict V)
    → lookup k d ≡ none
    → lookup k (keep p d) ≡ none
unfolding lookup keep
lookup-keep-none p k [] h = refl
lookup-keep-none p k ((j, w) ∷ d) h = ground (arith, lookup-keep-none p k d)

-- An unknown challenge is refused.
consume-unknown :
    (tenant agent_id nonce challenge_id : Str) (now : ℕ) (c : RegistrationChallengeCache)
    → lookup (challenge_key tenant agent_id nonce) c.challenges ≡ none
    → (consume tenant agent_id nonce challenge_id now c).0 ≡ err challenge_not_found
unfolding consume gc consume_entry
consume-unknown tenant agent_id nonce challenge_id now c h =
    rw
      (lookup-keep-none (λ (ch : Challenge). leb now ch.expires_at)
        (challenge_key tenant agent_id nonce) c.challenges h)
      refl

-- A challenge of this id that has not expired is accepted, and is gone then.
consume-known :
    (tenant agent_id nonce challenge_id : Str) (now : ℕ) (c : RegistrationChallengeCache)
    (ch : Challenge)
    → lookup (challenge_key tenant agent_id nonce) c.challenges ≡ some ch
    → ch.challenge_id ≡ challenge_id
    → ch.consumed ≡ false
    → now ≤ ch.expires_at
    → ((consume tenant agent_id nonce challenge_id now c).0 ≡ ok tt)
      × (lookup
            (challenge_key tenant agent_id nonce)
            (consume tenant agent_id nonce challenge_id now c).1.challenges
          ≡ none)
unfolding consume gc consume_entry
consume-known tenant agent_id nonce challenge_id now c ch h i u le =
    let key = challenge_key tenant agent_id nonce in
    let found =
      lookup-keep (λ (x : Challenge). leb now x.expires_at) key ch c.challenges h (ground arith) in
    let timely : ltb ch.expires_at now ≡ false = ground arith in
    let gone =
      lookup-erase key key (keep (λ (x : Challenge). leb now x.expires_at) c.challenges)
      ∙ rw (str_eq_refl key) refl in
    rw found (rw u (rw timely (rw i (rw (str_eq_refl challenge_id) (refl, gone)))))

issued_entry :
    (tenant agent_id nonce challenge_id : Str) (now : ℕ) (c : RegistrationChallengeCache)
    → lookup
        (challenge_key tenant agent_id nonce)
        (issue tenant agent_id nonce challenge_id now c).challenges
      ≡ some (record { challenge_id = challenge_id; expires_at = now + c.ttl; consumed = false })
unfolding issue
issued_entry tenant agent_id nonce challenge_id now c =
    let key = challenge_key tenant agent_id nonce in
    lookup-insert key key
      (record { challenge_id = challenge_id; expires_at = now + c.ttl; consumed = false })
      (gc now c).challenges
    ∙ rw (str_eq_refl key) refl

-- A challenge that was issued is consumed with its id until its time is over, and a second time it is
-- not found, with any id and at any time.
pub challenge_consumed_once :
    (tenant agent_id nonce challenge_id other_id : Str) (issued now later : ℕ)
    (c : RegistrationChallengeCache)
    → now ≤ issued + c.ttl
    → ((consume tenant agent_id nonce challenge_id now
          (issue tenant agent_id nonce challenge_id issued c)).0
        ≡ ok tt)
      × ((consume tenant agent_id nonce other_id later
            (consume tenant agent_id nonce challenge_id now
              (issue tenant agent_id nonce challenge_id issued c)).1).0
          ≡ err challenge_not_found)
challenge_consumed_once tenant agent_id nonce challenge_id other_id issued now later c le =
    let key = challenge_key tenant agent_id nonce in
    let ch : Challenge = record {
      challenge_id = challenge_id;
      expires_at = issued + c.ttl;
      consumed = false;
    } in
    let fresh = issue tenant agent_id nonce challenge_id issued c in
    let (first, gone) =
      consume-known tenant agent_id nonce challenge_id now fresh ch
        (issued_entry tenant agent_id nonce challenge_id issued c) refl refl le in
    (
      first,
      consume-unknown tenant agent_id nonce other_id later
          (consume tenant agent_id nonce challenge_id now fresh).1 gone,
    )
