-- ===== src/Fusion/Ranking.antt =====
-- What `rrf_fuse` returns: every hit key once, with the sum of its shares, best score first.
use higgsfield_memory_servic.Prelude.{
  ℕ, ◌+◌, String, Bool, true, false, ◌≡◌, refl, ◌∙◌, ap, sym, subst, none, some, List, [], ◌∷◌,
  nat_eq, string_eq, pair_eq, ◌==◌, if◌then◌else◌, arith, All, count,
}
use higgsfield_memory_servic.Numbers.{Floats, IsOrdered}
use higgsfield_memory_servic.Candidate.{Candidate}
use higgsfield_memory_servic.Sorting.{
  sort, IsSorted, IsPrecedence, sort-IsSorted, All-sort, count-sort,
}
use higgsfield_memory_servic.Dict.{Dict, lookup, NodupKeys, All-lookup_values}
use higgsfield_memory_servic.Fusion.{
  sort_fused, Key, key_of, Fused, collect, start, higher, rrf_fuse,
}
use higgsfield_memory_servic.Fusion.Events.{
  Event, events, sum_shares, fuse_events, is_hit, fuse_sources-eq-events,
}
use higgsfield_memory_servic.Fusion.Scores.{lookup-fused_score, fused_score-NodupKeys}
use higgsfield_memory_servic.Fusion.Chosen.{IsBest, chosen_after-none, lookup-chosen_cand}

module _ {F : Type 0} where
  -- `collect` succeeds when every scored key has a candidate, and what holds of each scored key
  -- with its candidate then holds of each entry.
  collect-some :
      (P : Candidate F × F → Type 0) (chosen : Dict Key (Candidate F × F)) (scores : Dict Key F)
      → All
          (λ x.
            (c : Candidate F) × (w : F) × (lookup x.0 chosen ≡ some (c, w))
            × (key_of c ≡ x.0)
            × P (c, x.1))
          scores
      → (fused : List (Candidate F × F)) × (collect chosen scores ≡ some fused)
        × All P fused
        × ((key : Key) → count (λ x. key == key_of x.0) fused ≡ count (λ x. key == x.0) scores)
  unfolding collect
  collect-some P chosen [] h = ([], refl, tt, λ key. refl)
  collect-some P chosen ((key, score) ∷ scores) ((c, w, eq, k, p), h) =
      let (fused, done, all, counts) = collect-some P chosen scores h in
      (
        (c, score) ∷ fused,
        ground (arith, eq, done),
        (p, all),
        λ j i. (if j == k i then 1 else 0) + counts j i,
      )

  count-lookup :
      (key : Key) (d : Dict Key F)
      → NodupKeys d
      → count (λ x. key == x.0) d ≡ elim (lookup key d) [ none ↦ 0 | some _ ↦ 1 ]
  unfolding lookup
  count-lookup key [] u = refl
  count-lookup key ((j, v) ∷ d) (fresh, u) = ground (arith, count-lookup key d u)

module _ {F : Type 0} (fl : Floats F) where
  -- What a fused entry is: the candidate is from a strongest source that hit its key, and the score
  -- is the sum of the shares of the hits of that key.
  pub record IsEntry (groups : Dict String (List (Candidate F))) (k : ℕ) (entry : Candidate F × F)
      : Type 0 where
    pub best : IsBest fl (key_of entry.0) (events fl groups) entry.0
    pub score : entry.1 ≡ sum_shares fl k (key_of entry.0) fl.zero_f (events fl groups)

  module _ (order : IsOrdered fl) (groups : Dict String (List (Candidate F))) (k : ℕ) where
    abbrev es : List (Event F)
    es = events fl groups

    abbrev final : Fused F
    final = fuse_events fl k es start

    scores-NodupKeys : NodupKeys final.fused_score
    scores-NodupKeys = fused_score-NodupKeys fl k es start tt

    scored :
        (key : Key)
        → lookup key final.fused_score
          ≡ (if is_hit key es then some (sum_shares fl k key fl.zero_f es) else none)
    scored key = lookup-fused_score fl k key es start (unfold lookup in refl)

    entry :
        (key : Key) (c : Candidate F) (score : F)
        → IsBest fl key es c
        → score ≡ sum_shares fl k key fl.zero_f es
        → IsEntry groups k (c, score)
    entry key c score best value = record {
      best = subst (λ q. IsBest fl q es c) (sym best.has_key) best;
      score = value ∙ ap (λ q. sum_shares fl k q fl.zero_f es) (sym best.has_key);
    }

    -- Every scored key has a candidate, and the two make an entry.
    scored-IsEntry :
        (key : Key) (score : F)
        → lookup key final.fused_score ≡ some score
        → (c : Candidate F) × (w : F) × (lookup key final.chosen_cand ≡ some (c, w))
          × (key_of c ≡ key)
          × IsEntry groups k (c, score)
    scored-IsEntry key score h =
        let (c, w, eq, best) = chosen_after-none fl key order es hit in
        (
          c,
          w,
          lookup-chosen_cand fl key k es start ∙ (unfold lookup in eq),
          best.has_key,
          entry key c score best value,
        )
      where
        hit : is_hit key es ≡ true
        hit = ground (arith, scored key)

        value : score ≡ sum_shares fl k key fl.zero_f es
        value = ground (arith, scored key)

    higher-IsPrecedence : IsPrecedence (higher fl)
    higher-IsPrecedence = record {
      asym = λ a b. order.lt_asym b.1 a.1;
      trans = λ a b c h g. order.ge_trans a.1 b.1 c.1 h g;
    }

    entries_of :
        (key : Key) → count (λ x. key == x.0) final.fused_score ≡ (if is_hit key es then 1 else 0)
    entries_of key =
        count-lookup key final.fused_score scores-NodupKeys
        ∙ ap (λ o. elim o as (λ _. ℕ) [ none ↦ 0 | some _ ↦ 1 ]) (scored key)
        ∙ by_hit (is_hit key es)
      where
        by_hit :
            (b : Bool)
            → (elim (if b then some (sum_shares fl k key fl.zero_f es) else none) as (λ _. ℕ) [
              | none ↦ 0
              | some _ ↦ 1
            ])
              ≡ (if b then 1 else 0)
        by_hit true = refl
        by_hit false = refl

    -- For numbers that are ordered, with no NaN among them: fusing never raises. The entries are
    -- sorted by score, best first; each is the sum of its shares over all sources, with a candidate
    -- from a strongest source; and a (kind, id) has one entry if some source lists it, and none if
    -- no source does.
    pub rrf_fuse_lem :
        (fused : List (Candidate F × F)) × (rrf_fuse fl groups k ≡ some fused)
        × IsSorted (higher fl) fused
        × All (IsEntry groups k) fused
        × ((key : Key) → count (λ x. key == key_of x.0) fused ≡ (if is_hit key es then 1 else 0))
    unfolding rrf_fuse
    rrf_fuse_lem =
        let (fused, done, all, counts) =
          collect-some (IsEntry groups k) final.chosen_cand final.fused_score
            (All-lookup_values _ final.fused_score scores-NodupKeys scored-IsEntry) in
        (
          sort (higher fl) fused,
          ap (λ (st : Fused F). sort_fused fl (collect st.chosen_cand st.fused_score))
                (fuse_sources-eq-events fl k groups start)
              ∙ ap (sort_fused fl) done,
          sort-IsSorted (higher fl) higher-IsPrecedence fused,
          All-sort (higher fl) (IsEntry groups k) fused all,
          λ key.
              count-sort (higher fl) (λ x. key == key_of x.0) fused ∙ counts key ∙ entries_of key,
        )
