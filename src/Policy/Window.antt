-- ===== src/Policy/Window.antt =====
-- The sliding window of one counter: the stamps it keeps against the whole history of counted actions.
use agent_authorization_gate.Base.{
  ℕ, ◌+◌, ◌≤◌, ◌<◌, ◌≡◌, Bool, ◌&&◌, List, [], ◌∷◌, ◌++◌, length, filter, leb, All, All-append,
  arith, ◌∙◌, sym, Bool-cases, inl, inr,
}
use agent_authorization_gate.Policy.{is_fresh}

-- The actions of a history that fall in the window which ends at `at`.
abbrev pub count_in : ℕ → ℕ → List ℕ → ℕ
count_in window at history = length (filter (λ t. leb t at && is_fresh window at t) history)

abbrev fresh_count : ℕ → ℕ → List ℕ → ℕ
fresh_count window at kept = length (filter (is_fresh window at) kept)

-- What a counter's stamps say of the history, from the time `now` on.
pub record Tracks (limit window now : ℕ) (history kept : List ℕ) : Type 0 where
  pub past : All (λ t. t ≤ now) history
  pub same : (at : ℕ) → now ≤ at → fresh_count window at history ≡ fresh_count window at kept
  pub bounded : (at : ℕ) → count_in window at history ≤ limit

pub filter_twice :
    (window now at : ℕ) (kept : List ℕ)
    → now ≤ at
    → fresh_count window at (filter (is_fresh window now) kept) ≡ fresh_count window at kept
filter_twice window now at [] h = omega arith
filter_twice window now at (t ∷ kept) h = ground (arith, filter_twice window now at kept h)

pub length-filter_append :
    (p : ℕ → Bool) (xs ys : List ℕ)
    → length (filter p (xs ++ ys)) ≡ length (filter p xs) + length (filter p ys)
length-filter_append p [] ys = omega arith
length-filter_append p (x ∷ xs) ys = ground (arith, length-filter_append p xs ys)

count-le-fresh :
    (window at : ℕ) (history : List ℕ) → count_in window at history ≤ fresh_count window at history
count-le-fresh window at [] = omega arith
count-le-fresh window at (t ∷ history) = ground (arith, count-le-fresh window at history)

fresh-le-length : (window at : ℕ) (kept : List ℕ) → fresh_count window at kept ≤ length kept
fresh-le-length window at [] = omega arith
fresh-le-length window at (t ∷ kept) = ground (arith, fresh-le-length window at kept)

All-le :
    (now later : ℕ) (xs : List ℕ) → now ≤ later → All (λ t. t ≤ now) xs → All (λ t. t ≤ later) xs
All-le now later [] h a = tt
All-le now later (x ∷ xs) h a = (omega arith, All-le now later xs h a.1)

pub Tracks-start : (limit window now : ℕ) → Tracks limit window now [] []
Tracks-start limit window now = record {
  past = tt;
  same = λ at h. omega arith;
  bounded = λ at. omega arith;
}

module _ {limit window now : ℕ} (later : ℕ) {history kept : List ℕ} (le : now ≤ later)
    (t : Tracks limit window now history kept) where
  pub Tracks-later : Tracks limit window later history kept
  Tracks-later = record {
    past = All-le now later history le t.past;
    same = λ at h. t.same at (omega arith);
    bounded = t.bounded;
  }

  -- Cleaning drops no stamp that a later window will count.
  pub Tracks-clean : Tracks limit window later history (filter (is_fresh window later) kept)
  Tracks-clean = record {
    past = All-le now later history le t.past;
    same = λ at h. t.same at (omega arith) ∙ sym (filter_twice window later at kept h);
    bounded = t.bounded;
  }

  one_more :
      (at : ℕ)
      → length (filter (is_fresh window later) kept) < limit
      → count_in window at history + count_in window at (later ∷ []) ≤ limit
  one_more at room = elim (Bool-cases (leb later at)) [
    | inl now_or_after ↦
        let h : later ≤ at = ground arith in
        ground (
          arith,
          count-le-fresh window at history,
          t.same at (omega arith),
          filter_twice window later at kept h,
          fresh-le-length window at (filter (is_fresh window later) kept),
        )
    | inr before ↦ ground (arith, t.bounded at)
  ]

  -- A counted action fits, where the cleaned counter was below the limit.
  pub Tracks-count :
      length (filter (is_fresh window later) kept) < limit
      → Tracks limit window later
          (history ++ later ∷ [])
          (filter (is_fresh window later) kept ++ later ∷ [])
  Tracks-count room = record {
    past =
        All-append (λ t. t ≤ later) history (later ∷ []) (All-le now later history le t.past)
          (omega arith, tt);
    same = λ at h. omega (
      arith,
      length-filter_append (is_fresh window at) history (later ∷ []),
      length-filter_append (is_fresh window at) (filter (is_fresh window later) kept) (later ∷ []),
      t.same at (omega arith),
      filter_twice window later at kept h,
    );
    bounded = λ at. omega (
      arith,
      length-filter_append (λ x. leb x at && is_fresh window at x) history (later ∷ []),
      one_more at room,
    );
  }

pub count_in-append :
    (window at : ℕ) (xs ys : List ℕ)
    → count_in window at (xs ++ ys) ≡ count_in window at xs + count_in window at ys
count_in-append window at xs ys = length-filter_append (λ t. leb t at && is_fresh window at t) xs ys
