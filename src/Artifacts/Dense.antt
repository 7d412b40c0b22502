-- ===== src/Artifacts/Dense.antt =====
-- The log of gateway/artifact_log.py: its numbers are dense, and its queries are slices of it.
use agent_authorization_gate.Base.{
  ℕ, zero, suc, ◌+◌, ◌-◌, ◌≤◌, ◌≡◌, refl, sym, ap, ◌∙◌, true, false, List, [], ◌∷◌, ◌++◌, Str,
  arith, length, take, drop, filter, get_elem?, ltb, ◌==◌, append-nil, append_assoc, subst, ap₂,
  drop-nil, Bool-cases, inl, inr,
}
use agent_authorization_gate.Artifacts.{
  ArtifactEntry, ArtifactLog, Artifact, append, get_entries_since, get_entry, none,
}

abbrev pub entry_of : ℕ → Str → Artifact → ArtifactEntry
entry_of seq tenant a = record {
  seq = seq;
  artifact_type = a.artifact_type;
  artifact_id = a.artifact_id;
  artifact_hash = a.artifact_hash;
  agent_kid = a.agent_kid;
  tenant = tenant;
  created_at = a.created_at;
}

-- The documents of these artifacts, numbered on from `seq`.
abbrev pub numbered : ℕ → Str → List Artifact → List ArtifactEntry
numbered seq tenant [] = []
numbered seq tenant (a ∷ artifacts) =
    entry_of (suc seq) tenant a ∷ numbered (suc seq) tenant artifacts

-- `append` of one artifact after the other.
abbrev pub append_all :
    List Artifact → ArtifactLog → List ArtifactEntry → ArtifactLog × List ArtifactEntry
append_all [] log docs = (log, docs)
append_all (a ∷ artifacts) log docs =
    let (_, log', docs') = append a log docs in append_all artifacts log' docs'

pub length-numbered :
    (seq : ℕ) (tenant : Str) (artifacts : List Artifact)
    → length (numbered seq tenant artifacts) ≡ length artifacts
length-numbered seq tenant [] = refl
length-numbered seq tenant (a ∷ artifacts) = ap suc (length-numbered (suc seq) tenant artifacts)

pub append_all-numbered :
    (artifacts : List Artifact) (log : ArtifactLog) (docs : List ArtifactEntry)
    → append_all artifacts log docs ≡ (
      record log { seq = log.seq + length artifacts },
      docs ++ numbered log.seq log.tenant artifacts,
    )
unfolding append
append_all-numbered [] log docs =
    let same : log.seq ≡ log.seq + 0 = omega arith in
    ap₂ (λ (n : ℕ) (l : List ArtifactEntry). (record log { seq = n }, l)) same
      (sym (append-nil docs))
append_all-numbered (a ∷ artifacts) log docs =
    let e = entry_of (suc log.seq) log.tenant a in
    let same : suc log.seq + length artifacts ≡ log.seq + suc (length artifacts) = omega arith in
    append_all-numbered artifacts (record log { seq = suc log.seq }) (docs ++ e ∷ [])
    ∙ ap₂ (λ (n : ℕ) (l : List ArtifactEntry). (record log { seq = n }, l)) same
        (append_assoc docs (e ∷ []) (numbered (suc log.seq) log.tenant artifacts))

filter-all :
    (after_seq seq : ℕ) (tenant : Str) (artifacts : List Artifact)
    → after_seq ≤ seq
    → filter (λ (e : ArtifactEntry). ltb after_seq e.seq) (numbered seq tenant artifacts)
      ≡ numbered seq tenant artifacts
filter-all after_seq seq tenant [] le = refl
filter-all after_seq seq tenant (a ∷ artifacts) le =
    let later : ltb after_seq (suc seq) ≡ true = ground arith in
    rw later (
      ap (λ l. entry_of (suc seq) tenant a ∷ l)
        (filter-all after_seq (suc seq) tenant artifacts (omega arith)))

filter-drop :
    (after_seq seq : ℕ) (tenant : Str) (artifacts : List Artifact)
    → seq ≤ after_seq
    → filter (λ (e : ArtifactEntry). ltb after_seq e.seq) (numbered seq tenant artifacts)
      ≡ drop (after_seq - seq) (numbered seq tenant artifacts)
filter-drop after_seq seq tenant [] le = sym (drop-nil (after_seq - seq))
filter-drop after_seq seq tenant (a ∷ artifacts) le = elim (Bool-cases (ltb after_seq (suc seq))) [
  | inl reached ↦
      let none_left : after_seq - seq ≡ 0 = ground arith in
      let last : after_seq ≤ seq = ground arith in
      rw none_left (filter-all after_seq seq tenant (a ∷ artifacts) last)
  | inr before ↦
      let one_more : after_seq - seq ≡ suc (after_seq - suc seq) = ground arith in
      let next : suc seq ≤ after_seq = ground arith in
      rw before (rw one_more (filter-drop after_seq (suc seq) tenant artifacts next))
]

-- Of a dense log, the entries after a number are those that stand behind as many entries.
pub entries_since_drop :
    (after_seq limit seq : ℕ) (tenant : Str) (artifacts : List Artifact)
    → seq ≤ after_seq
    → get_entries_since after_seq limit (numbered seq tenant artifacts)
      ≡ take limit (drop (after_seq - seq) (numbered seq tenant artifacts))
unfolding get_entries_since
entries_since_drop after_seq limit seq tenant artifacts le =
    ap (take limit) (filter-drop after_seq seq tenant artifacts le)

get_entry-numbered :
    (k seq : ℕ) (tenant : Str) (artifacts : List Artifact)
    → get_entry (suc (seq + k)) (numbered seq tenant artifacts)
      ≡ get_elem? (numbered seq tenant artifacts) k
unfolding get_entry
get_entry-numbered zero seq tenant [] = refl
get_entry-numbered (suc k) seq tenant [] = refl
get_entry-numbered zero seq tenant (a ∷ artifacts) =
    let here : (suc seq == suc (seq + 0)) ≡ true = ground arith in rw here refl
get_entry-numbered (suc k) seq tenant (a ∷ artifacts) =
    let there : (suc seq == suc (seq + suc k)) ≡ false = ground arith in
    let same : suc (seq + suc k) ≡ suc (suc seq + k) = omega arith in
    rw there (
      ap (λ n. get_entry n (numbered (suc seq) tenant artifacts)) same
      ∙ get_entry-numbered k (suc seq) tenant artifacts)

no_entry_zero :
    (seq : ℕ) (tenant : Str) (artifacts : List Artifact)
    → get_entry 0 (numbered seq tenant artifacts) ≡ none
unfolding get_entry
no_entry_zero seq tenant [] = refl
no_entry_zero seq tenant (a ∷ artifacts) =
    let other : (suc seq == 0) ≡ false = ground arith in
    rw other (no_entry_zero (suc seq) tenant artifacts)

-- The artifacts appended to an empty log are found under the numbers 1, 2, 3 and on, in their order,
-- no other number is found, and the log's number is the last one.
pub appended_found :
    (tenant : Str) (artifacts : List Artifact) (k : ℕ)
    → (get_entry (suc k) (append_all artifacts (record { tenant = tenant; seq = 0 }) []).1
        ≡ get_elem? (numbered 0 tenant artifacts) k)
      × (get_entry 0 (append_all artifacts (record { tenant = tenant; seq = 0 }) []).1 ≡ none)
      × ((append_all artifacts (record { tenant = tenant; seq = 0 }) []).0.seq ≡ length artifacts)
appended_found tenant artifacts k =
    let log : ArtifactLog = record { tenant = tenant; seq = 0 } in
    let all = append_all-numbered artifacts log [] in
    let same : suc (0 + k) ≡ suc k = omega arith in
    let size : 0 + length artifacts ≡ length artifacts = omega arith in
    (
      ap (λ (p : ArtifactLog × List ArtifactEntry). get_entry (suc k) p.1) all
          ∙ subst
              (λ n.
                get_entry n (numbered 0 tenant artifacts)
                ≡ get_elem? (numbered 0 tenant artifacts) k)
              same (get_entry-numbered k 0 tenant artifacts),
      ap (λ (p : ArtifactLog × List ArtifactEntry). get_entry 0 p.1) all
          ∙ no_entry_zero 0 tenant artifacts,
      ap (λ (p : ArtifactLog × List ArtifactEntry). p.0.seq) all ∙ size,
    )
