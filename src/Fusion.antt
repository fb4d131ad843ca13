-- ===== src/Fusion.antt =====
-- src/memory_service/services/fusion.py: weighted reciprocal rank fusion of ranked lists.
pub mod Events
pub mod Scores
pub mod Chosen
pub mod Ranking
pub mod Sources
pub mod Groups
pub mod Hits
use mathlib.Core.Option.{get_or}
use higgsfield_memory_servic.Prelude.{
  ℕ, suc, ◌+◌, String, Bool, Option, none, some, List, [], ◌∷◌, ◌++◌, nat_eq, string_eq, pair_eq,
  if◌then◌else◌,
}
use higgsfield_memory_servic.Numbers.{Floats}
use higgsfield_memory_servic.Candidate.{Candidate}
use higgsfield_memory_servic.Dict.{Dict, lookup, insert}
use higgsfield_memory_servic.Sorting.{sort}

-- What fusion takes for one hit: candidates that agree on it are the same memory or turn.
abbrev pub Key : Type 0
Key = String × ℕ

abbrev pub key_of : {F : Type 0} → Candidate F → Key
key_of c = (c.kind, c.id)

-- The two dicts that the loops fill.
pub record Fused (F : Type 0) : Type 0 where
  pub fused_score : Dict Key F
  pub chosen_cand : Dict Key (Candidate F × F)

module _ {F : Type 0} (fl : Floats F) where
  unfoldable pub source_weights : Dict String F
  source_weights =
      ("memory_vector", fl.decimal 14 1)
      ∷ ("memory_fts", fl.decimal 11 1)
      ∷ ("graph", fl.decimal 15 1)
      ∷ ("edge_hop", fl.decimal 9 1)
      ∷ ("turn_vector", fl.decimal 10 1)
      ∷ ("turn_fts", fl.decimal 7 1)
      ∷ []

  -- `SOURCE_WEIGHTS.get(source, 1.0)`
  unfoldable pub weight_of : String → F
  unfolding source_weights lookup string_eq
  weight_of source = get_or (lookup source source_weights) (fl.decimal 10 1)

  -- `if prev is None or weight > prev[1]: chosen_cand[key] = (c, weight)`
  unfoldable pub keep_strongest :
      Candidate F
      → F
      → Option (Candidate F × F)
      → Dict Key (Candidate F × F)
      → Dict Key (Candidate F × F)
  keep_strongest c weight none chosen = insert (key_of c) (c, weight) chosen
  keep_strongest c weight (some prev) chosen =
      if fl.lt prev.1 weight then insert (key_of c) (c, weight) chosen else chosen

  -- The body of the inner loop.
  unfoldable pub fuse_one : ℕ → F → ℕ → Candidate F → Fused F → Fused F
  unfolding keep_strongest
  fuse_one k weight rank c st =
      let key = key_of c in
      record {
        fused_score =
            insert key
              (fl.add (get_or (lookup key st.fused_score) fl.zero_f)
                (fl.div_int weight (k + rank + 1)))
              st.fused_score;
        chosen_cand = keep_strongest c weight (lookup key st.chosen_cand) st.chosen_cand;
      }

  -- `for rank, c in enumerate(cands)`
  unfoldable pub fuse_ranked : ℕ → F → ℕ → List (Candidate F) → Fused F → Fused F
  unfolding fuse_one
  fuse_ranked k weight rank [] st = st
  fuse_ranked k weight rank (c ∷ cands) st =
      fuse_ranked k weight (suc rank) cands (fuse_one k weight rank c st)

  -- `for source, cands in candidates_per_source.items()`
  unfoldable pub fuse_sources : ℕ → Dict String (List (Candidate F)) → Fused F → Fused F
  unfolding fuse_ranked weight_of
  fuse_sources k [] st = st
  fuse_sources k ((source, cands) ∷ groups) st =
      fuse_sources k groups (fuse_ranked k (weight_of source) 0 cands st)

-- `[(chosen_cand[key][0], score) for key, score in fused_score.items()]`; `none` is a KeyError.
unfoldable pub collect :
    {F : Type 0} → Dict Key (Candidate F × F) → Dict Key F → Option (List (Candidate F × F))
collect chosen [] = some []
collect chosen ((key, score) ∷ scores) =
    let rest = collect chosen scores in
    elim (lookup key chosen) [
      | none ↦ none
      | some best ↦ elim rest [ none ↦ none | some fused ↦ some ((best.0, score) ∷ fused) ]
    ]

abbrev pub start : {F : Type 0} → Fused F
start = record { fused_score = []; chosen_cand = [] }

module _ {F : Type 0} (fl : Floats F) where
  abbrev pub higher : Candidate F × F → Candidate F × F → Bool
  higher x y = fl.lt y.1 x.1

  abbrev pub sort_fused : Option (List (Candidate F × F)) → Option (List (Candidate F × F))
  sort_fused none = none
  sort_fused (some fused) = some (sort higher fused)

  unfoldable pub rrf_fuse : Dict String (List (Candidate F)) → ℕ → Option (List (Candidate F × F))
  unfolding fuse_sources collect sort
  rrf_fuse groups k =
      let st = fuse_sources fl k groups start in sort_fused (collect st.chosen_cand st.fused_score)

-- Buckets a flat list by the `source` tag, in order of first appearance.
unfoldable pub bucket :
    {F : Type 0}
    → List (Candidate F)
    → Dict String (List (Candidate F))
    → Dict String (List (Candidate F))
unfolding lookup insert string_eq
bucket [] buckets = buckets
bucket (c ∷ cands) buckets =
    bucket cands (insert c.source (get_or (lookup c.source buckets) [] ++ (c ∷ [])) buckets)

unfoldable pub group_by_source :
    {F : Type 0} → List (Candidate F) → Dict String (List (Candidate F))
unfolding bucket
group_by_source cands = bucket cands []
