-- ===== src/Merkle/Levels.antt =====
-- The loops of `_build_tree` and `compute_batch_root`, for any node function: they end with one node,
-- they compute the same root, and a level's proof step leads to the level above.
use agent_authorization_gate.Base.{
  ℕ, zero, suc, ◌+◌, ◌*◌, ◌≤◌, ◌<◌, ◌≡◌, refl, List, [], ◌∷◌, ok, Bytes, Bool-cases, inl, inr,
  length, ltb, arith, true, ap,
}
use agent_authorization_gate.Merkle.{next_level, next_batch_level, build_levels, first, top, reduce}

module _ (node : Bytes → Bytes → Bytes) where
  pub length-next_level : (level : List Bytes) → length level ≤ 2 * length (next_level node level)
  unfolding next_level
  length-next_level [] = omega arith
  length-next_level (a ∷ []) = omega arith
  length-next_level (a ∷ b ∷ rest) = omega (arith, length-next_level rest)

  pub next_level_le : (level : List Bytes) → 2 * length (next_level node level) ≤ length level + 1
  unfolding next_level
  next_level_le [] = omega arith
  next_level_le (a ∷ []) = omega arith
  next_level_le (a ∷ b ∷ rest) = omega (arith, next_level_le rest)

  -- The inner loops of `_build_tree` and of `compute_batch_root` do the same.
  pub next_batch_level-next_level :
      (level : List Bytes) → next_batch_level node level ≡ next_level node level
  unfolding next_level next_batch_level
  next_batch_level-next_level [] = refl
  next_batch_level-next_level (a ∷ []) = refl
  next_batch_level-next_level (a ∷ b ∷ rest) =
      ap (λ (l : List Bytes). node a b ∷ l) (next_batch_level-next_level rest)

  -- The last list that the loop of `compute_batch_root` keeps has one element.
  pub length-reduce :
      (fuel : ℕ) (level : List Bytes)
      → 0 < length level
      → length level ≤ fuel
      → length (reduce node fuel level) ≡ 1
  unfolding reduce
  length-reduce zero level p h = absurd (omega arith)
  length-reduce (suc fuel) level p h = ground (
    arith,
    next_batch_level-next_level level,
    length-next_level level,
    next_level_le level,
    length-reduce fuel (next_batch_level node level),
  )

  pub build_levels-cons :
      (fuel : ℕ) (level : List Bytes)
      → (rest : List (List Bytes)) × (build_levels node fuel level ≡ level ∷ rest)
  unfolding build_levels
  build_levels-cons zero level = ([], refl)
  build_levels-cons (suc fuel) level = elim (Bool-cases (ltb 1 (length level))) [
    | inl more ↦ (build_levels node fuel (next_level node level), rw more)
    | inr done ↦ ([], rw done)
  ]

  pub build_levels-more :
      (fuel : ℕ) (level : List Bytes)
      → ltb 1 (length level) ≡ true
      → build_levels node (suc fuel) level ≡ level ∷ build_levels node fuel (next_level node level)
  unfolding build_levels
  build_levels-more fuel level more = rw more

  pub top-cons :
      (level : List Bytes) (fuel : ℕ) (above : List Bytes)
      → top (level ∷ build_levels node fuel above) ≡ top (build_levels node fuel above)
  unfolding top
  top-cons level fuel above = let (rest, e) = build_levels-cons fuel above in rw e

  -- The two loops compute one root.
  pub top-build_levels :
      (fuel : ℕ) (level : List Bytes)
      → top (build_levels node fuel level) ≡ first (reduce node fuel level)
  unfolding build_levels reduce
  top-build_levels zero level = unfold top in refl
  top-build_levels (suc fuel) level = elim (Bool-cases (ltb 1 (length level))) [
    | inl more ↦
        let same = next_batch_level-next_level level in
        rw more (rw top-cons (rw same (top-build_levels fuel (next_level node level))))
    | inr done ↦ rw done (unfold top in refl)
  ]

  first_of_one : (level : List Bytes) → length level ≡ 1 → (r : Bytes) × (first level ≡ ok r)
  unfolding first
  first_of_one [] h = absurd (omega arith)
  first_of_one (a ∷ rest) h = (a, refl)

  -- With as much fuel as there are leaves the loop ends, and there is a root.
  pub top_total :
      (fuel : ℕ) (level : List Bytes)
      → 0 < length level
      → length level ≤ fuel
      → (r : Bytes) × (top (build_levels node fuel level) ≡ ok r)
  top_total fuel level p h =
      let (r, e) = first_of_one (reduce node fuel level) (length-reduce fuel level p h) in
      (r, rw top-build_levels e)
