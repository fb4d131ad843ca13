-- ===== src/Fusion/Groups.antt =====
-- `group_by_source` loses no candidate and keeps the rank order of each source.
use mathlib.Core.Option.{get_or}
use higgsfield_memory_servic.Prelude.{
  String, ◌≡◌, ◌∙◌, sym, List, [], ◌∷◌, ◌++◌, nat_eq, string_eq, ◌==◌, arith, filter, append-nil,
  append_assoc,
}
use higgsfield_memory_servic.Candidate.{Candidate}
use higgsfield_memory_servic.Dict.{Dict, lookup, lookup-insert, insert, NodupKeys, insert-NodupKeys}
use higgsfield_memory_servic.Fusion.{bucket, group_by_source}

module _ {F : Type 0} where
  abbrev from_source : String → List (Candidate F) → List (Candidate F)
  from_source source = filter (λ c. source == c.source)

  lookup-bucket :
      (source : String) (cands : List (Candidate F)) (buckets : Dict String (List (Candidate F)))
      → get_or (lookup source (bucket cands buckets)) []
        ≡ get_or (lookup source buckets) [] ++ from_source source cands
  unfolding bucket
  lookup-bucket source [] buckets = sym (append-nil _)
  lookup-bucket source (c ∷ cands) buckets = lookup-bucket source cands _ ∙ step
    where
      old : List (Candidate F)
      old = get_or (lookup c.source buckets) []

      step :
          get_or (lookup source (insert c.source (old ++ (c ∷ [])) buckets)) []
            ++ from_source source cands
          ≡ get_or (lookup source buckets) [] ++ from_source source (c ∷ cands)
      step = ground (
        arith,
        lookup-insert source c.source (old ++ (c ∷ [])) buckets,
        append_assoc old (c ∷ []) (from_source source cands),
      )

  bucket-NodupKeys :
      (cands : List (Candidate F)) (buckets : Dict String (List (Candidate F)))
      → NodupKeys buckets
      → NodupKeys (bucket cands buckets)
  unfolding bucket
  bucket-NodupKeys [] buckets u = u
  bucket-NodupKeys (c ∷ cands) buckets u =
      bucket-NodupKeys cands _ (insert-NodupKeys c.source _ buckets u)

  -- Each source's bucket is the list of its candidates, in their order, and no source has two buckets.
  pub group_by_source_lem :
      (cands : List (Candidate F))
      → NodupKeys (group_by_source cands)
        × ((source : String)
            → get_or (lookup source (group_by_source cands)) []
              ≡ filter (λ c. source == c.source) cands)
  unfolding group_by_source
  group_by_source_lem cands =
      (bucket-NodupKeys cands [] tt, λ source. unfold lookup in lookup-bucket source cands [])
