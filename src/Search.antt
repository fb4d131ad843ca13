-- ===== src/Search.antt =====
-- src/memory_service/services/search.py: POST /search. What the four retrievers return comes from
-- outside and is an argument; `none` stands for a retriever that failed.
pub mod Results
pub mod Scoped
use mathlib.Core.Option.{get_or}
use higgsfield_memory_servic.Prelude.{
  ℕ, String, Bool, Option, none, some, List, [], ◌∷◌, ◌++◌, map, string_eq, if◌then◌else◌, take,
}
use higgsfield_memory_servic.Text.{Text, codes, is_empty}
use higgsfield_memory_servic.Numbers.{Floats}
use higgsfield_memory_servic.Datetime.{Datetime}
use higgsfield_memory_servic.Dict.{Dict, insert}
use higgsfield_memory_servic.Candidate.{Value, Metadata, Candidate}
use higgsfield_memory_servic.Format.{or_empty}
use higgsfield_memory_servic.Store.{Scope, user, session}
use higgsfield_memory_servic.Fusion.{group_by_source, rrf_fuse}

-- `SearchIn` of src/memory_service/schemas/search.py
pub record SearchIn : Type 0 where
  pub query : Text
  pub session_id : Option Text
  pub user_id : Option Text
  pub limit : ℕ

-- `SearchResult` of src/memory_service/schemas/search.py
pub record SearchResult (F : Type 0) : Type 0 where
  pub content : Text
  pub score : F
  pub session_id : Text
  pub timestamp : Datetime
  pub metadata : Metadata F

-- An empty id counts as none.
unfoldable pub search_scope : SearchIn → Option Scope
search_scope payload =
    if is_empty (or_empty payload.user_id)
    then if is_empty (or_empty payload.session_id)
      then none
      else some (session (or_empty payload.session_id))
    else some (user (or_empty payload.user_id))

module _ {F : Type 0} where
  -- `if isinstance(r, BaseException): continue`
  unfoldable pub gather : List (Option (List (Candidate F))) → List (Candidate F)
  gather [] = []
  gather (none ∷ results) = gather results
  gather (some r ∷ results) = r ++ gather results

  -- `**c.metadata` after the two keys: the candidate's entries win.
  unfoldable pub merged : Metadata F → Metadata F → Metadata F
  unfolding insert string_eq
  merged base [] = base
  merged base ((k, v) ∷ metadata) = merged (insert k v base) metadata

module _ {F : Type 0} (fl : Floats F) (now : Datetime) where
  unfoldable pub search_result : Candidate F × F → SearchResult F
  unfolding merged
  search_result (c, fused_score) = record {
    content = c.content;
    score = fl.round_to fused_score 6;
    session_id = or_empty c.session_id;
    timestamp = get_or c.timestamp now;
    metadata =
        merged (("kind", Value.str (codes c.kind)) ∷ ("source", Value.str (codes c.source)) ∷ [])
          c.metadata;
  }

  abbrev pub top : ℕ → Option (List (Candidate F × F)) → Option (List (SearchResult F))
  top limit none = none
  top limit (some fused) = some (map search_result (take limit fused))

  -- The part after the retrievers; `none` is an exception of the fusion.
  unfoldable pub search_results :
      ℕ → SearchIn → List (Option (List (Candidate F))) → Option (List (SearchResult F))
  unfolding search_result gather group_by_source rrf_fuse
  search_results rrf_k payload results =
      top payload.limit (rrf_fuse fl (group_by_source (gather results)) rrf_k)

  -- `retrieve` runs the four retrievers in a scope.
  unfoldable pub search :
      ℕ → (Scope → List (Option (List (Candidate F)))) → SearchIn → Option (List (SearchResult F))
  unfolding search_scope search_results
  search rrf_k retrieve payload = elim (search_scope payload) [
    | none ↦ some []
    | some scope ↦ search_results rrf_k payload (retrieve scope)
  ]
