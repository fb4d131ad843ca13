-- ===== src/Fusion/Events.antt =====
-- The double loop of `rrf_fuse` as one pass over the hits that it visits, in that order.
use higgsfield_memory_servic.Prelude.{
  ℕ, suc, ◌+◌, String, Bool, true, false, ◌≡◌, refl, ◌∙◌, ap, List, [], ◌∷◌, ◌++◌, nat_eq,
  string_eq, pair_eq, ◌==◌, if◌then◌else◌,
}
use higgsfield_memory_servic.Numbers.{Floats}
use higgsfield_memory_servic.Candidate.{Candidate}
use higgsfield_memory_servic.Dict.{Dict}
use higgsfield_memory_servic.Fusion.{
  Key, key_of, Fused, weight_of, fuse_one, fuse_ranked, fuse_sources,
}

-- One hit: its source's weight, its 0-based rank there, and the candidate.
pub record Event (F : Type 0) : Type 0 where
  pub weight : F
  pub rank : ℕ
  pub cand : Candidate F

module _ {F : Type 0} where
  unfoldable pub ranked : F → ℕ → List (Candidate F) → List (Event F)
  ranked weight rank [] = []
  ranked weight rank (c ∷ cands) =
      record { weight = weight; rank = rank; cand = c } ∷ ranked weight (suc rank) cands

module _ {F : Type 0} (fl : Floats F) where
  -- All hits of all sources.
  unfoldable pub events : Dict String (List (Candidate F)) → List (Event F)
  unfolding ranked
  events [] = []
  events ((source, cands) ∷ groups) = ranked (weight_of fl source) 0 cands ++ events groups

  -- What one hit adds to the score of its key: weight / (k + rank + 1).
  abbrev pub share : ℕ → Event F → F
  share k e = fl.div_int e.weight (k + e.rank + 1)

  -- The reference score of a key: the shares of its hits, summed from the left.
  abbrev pub sum_shares : ℕ → Key → F → List (Event F) → F
  sum_shares k key acc [] = acc
  sum_shares k key acc (e ∷ es) =
      sum_shares k key (if key == key_of e.cand then fl.add acc (share k e) else acc) es

  unfoldable pub fuse_events : ℕ → List (Event F) → Fused F → Fused F
  fuse_events k [] st = st
  fuse_events k (e ∷ es) st = fuse_events k es (fuse_one fl k e.weight e.rank e.cand st)

  fuse_events-append :
      (k : ℕ) (es fs : List (Event F)) (st : Fused F)
      → fuse_events k (es ++ fs) st ≡ fuse_events k fs (fuse_events k es st)
  unfolding fuse_events
  fuse_events-append k [] fs st = refl
  fuse_events-append k (e ∷ es) fs st = fuse_events-append k es fs _

  fuse_ranked-eq-events :
      (k : ℕ) (weight : F) (rank : ℕ) (cands : List (Candidate F)) (st : Fused F)
      → fuse_ranked fl k weight rank cands st ≡ fuse_events k (ranked weight rank cands) st
  unfolding fuse_ranked fuse_events ranked
  fuse_ranked-eq-events k weight rank [] st = refl
  fuse_ranked-eq-events k weight rank (c ∷ cands) st =
      fuse_ranked-eq-events k weight (suc rank) cands _

  pub fuse_sources-eq-events :
      (k : ℕ) (groups : Dict String (List (Candidate F))) (st : Fused F)
      → fuse_sources fl k groups st ≡ fuse_events k (events groups) st
  unfolding fuse_sources events
  fuse_sources-eq-events k [] st = unfold fuse_events in refl
  fuse_sources-eq-events k ((source, cands) ∷ groups) st =
      fuse_sources-eq-events k groups _
      ∙ ap (fuse_events k (events groups))
          (fuse_ranked-eq-events k (weight_of fl source) 0 cands st)
      ∙ (rw (fuse_events-append k (ranked (weight_of fl source) 0 cands) (events groups) st))

-- Whether some hit has the key.
abbrev pub is_hit : {F : Type 0} → Key → List (Event F) → Bool
is_hit key [] = false
is_hit key (e ∷ es) = if key == key_of e.cand then true else is_hit key es
