-- ===== src/Search/Results.antt =====
-- What a search returns.
use higgsfield_memory_servic.Prelude.{
  ℕ, Bool, true, false, ◌||◌, ◌∙◌, any, count, ◌==◌, if◌then◌else◌, ◌∷◌, ◌≡◌, refl, ap, Option,
  none, some, List, [], map, take, nat_eq, string_eq, pair_eq,
}
use higgsfield_memory_servic.Numbers.{Floats, IsOrdered}
use higgsfield_memory_servic.Datetime.{Datetime}
use higgsfield_memory_servic.Candidate.{Candidate}
use higgsfield_memory_servic.Sorting.{IsSorted}
use higgsfield_memory_servic.Text.{is_empty}
use higgsfield_memory_servic.Format.{or_empty}
use higgsfield_memory_servic.Store.{Scope, user, session}
use higgsfield_memory_servic.Fusion.Hits.{keyed, any-append, is_hit-group_by_source}
use higgsfield_memory_servic.Fusion.{Key, key_of, higher, group_by_source}
use higgsfield_memory_servic.Fusion.Ranking.{rrf_fuse_lem}
use higgsfield_memory_servic.Search.{
  SearchIn, SearchResult, search_scope, gather, search_result, top, search_results, search,
}

-- Whether a retriever that answered has a hit with the key.
abbrev pub has_hit : {F : Type 0} → Key → List (Option (List (Candidate F))) → Bool
has_hit key [] = false
has_hit key (none ∷ results) = has_hit key results
has_hit key (some cands ∷ results) = any (keyed key) cands || has_hit key results

any-gather :
    {F : Type 0} (key : Key) (results : List (Option (List (Candidate F))))
    → any (keyed key) (gather results) ≡ has_hit key results
unfolding gather
any-gather key [] = refl
any-gather key (none ∷ results) = any-gather key results
any-gather key (some cands ∷ results) =
    any-append (keyed key) cands (gather results)
    ∙ ap (λ b. any (keyed key) cands || b) (any-gather key results)

module _ {F : Type 0} (fl : Floats F) (order : IsOrdered fl) (now : Datetime) (rrf_k : ℕ)
    (retrieve : Scope → List (Option (List (Candidate F)))) (payload : SearchIn) where
  -- The results of a search in the scope: the first of the fused hits, each turn and each memory that
  -- a retriever of the scope found being one of these, once.
  pub record IsSearched (scope : Scope) (result : Option (List (SearchResult F))) : Type 0 where
    pub fused : List (Candidate F × F)
    pub returned : result ≡ some (map (search_result fl now) (take payload.limit fused))
    pub ranked : IsSorted (higher fl) fused
    pub once :
        (key : Key)
        → count (λ x. key == key_of x.0) fused ≡ (if has_hit key (retrieve scope) then 1 else 0)

  -- By whether the request names no user, and no session.
  abbrev pub Answer : Bool → Bool → Option (List (SearchResult F)) → Type 0
  Answer true true result = result ≡ some []
  Answer true false result = IsSearched (session (or_empty payload.session_id)) result
  Answer false no_session result = IsSearched (user (or_empty payload.user_id)) result

  in_scope :
      (scope : Scope) → IsSearched scope (search_results fl now rrf_k payload (retrieve scope))
  unfolding search_results
  in_scope scope =
      let cands = gather (retrieve scope) in
      let (fused, done, ranked, _, once) = rrf_fuse_lem fl order (group_by_source cands) rrf_k in
      record {
        fused = fused;
        returned = ap (top fl now payload.limit) done;
        ranked = ranked;
        once = λ key.
            once key
            ∙ ap (λ (b : Bool). if b then 1 else 0)
                (is_hit-group_by_source key fl cands ∙ any-gather key (retrieve scope));
      }

  -- For numbers that are ordered, with no NaN among them, whatever the retrievers return and
  -- whichever of them fail: a search returns. If the request names a user, the retrievers run in the
  -- user's scope; else, if it names a session, in the session's; without either there is no result.
  -- The results are the first `limit` of the fused hits, best first, and these have each turn and
  -- each memory once that some retriever which did not fail found, and no other.
  pub search-Answer :
      Answer
        (is_empty (or_empty payload.user_id))
        (is_empty (or_empty payload.session_id))
        (search fl now rrf_k retrieve payload)
  unfolding search search_scope
  search-Answer =
      by_names (is_empty (or_empty payload.user_id)) (is_empty (or_empty payload.session_id))
    where
      by_names :
          (no_user no_session : Bool)
          → Answer no_user no_session
              (elim (if no_user
                then if no_session then none else some (session (or_empty payload.session_id))
                else some (user (or_empty payload.user_id))) [
                  | none ↦ some []
                  | some scope ↦ search_results fl now rrf_k payload (retrieve scope)
                ])
      by_names true true = refl
      by_names true false = in_scope (session (or_empty payload.session_id))
      by_names false no_session = in_scope (user (or_empty payload.user_id))
