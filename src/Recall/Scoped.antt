-- ===== src/Recall/Scoped.antt =====
-- A recall cites what is stored in the scope of its request, and nothing else.
use mathlib.Core.Option.{get_or}
use higgsfield_memory_servic.Prelude.{
  ℕ, String, Bool, true, false, ◌≡◌, refl, sym, ap, ◌∙◌, Option, none, some, List, [], ◌∷◌, ◌++◌,
  map, ◌==◌, string_eq, eq_of_==, if◌then◌else◌, nat_eq, filter, take, All, All-mono, All-append,
  All-take, All-map, All-if, filter-All, All-filter_of_All, ◌⊎◌, inl, inr,
}
use higgsfield_memory_servic.Text.{Text, is_empty}
use higgsfield_memory_servic.Numbers.{Floats, IsOrdered}
use higgsfield_memory_servic.Tokens.{Encoding}
use higgsfield_memory_servic.Candidate.{Metadata, Candidate}
use higgsfield_memory_servic.Dict.{lookup}
use higgsfield_memory_servic.Sorting.{All-sort}
use higgsfield_memory_servic.Format.{Citation}
use higgsfield_memory_servic.Store.{Scope, Turn, Memory, Db}
use higgsfield_memory_servic.Store.Scopes.{turn_scopes, memory_scopes, entity_scopes, RefersTo}
use higgsfield_memory_servic.Store.Sound.{IsSound}
use higgsfield_memory_servic.TurnRepo.{scope_for}
use higgsfield_memory_servic.MemoryRepo.{Scan}
use higgsfield_memory_servic.MemoryRepo.Queries.{Reached}
use higgsfield_memory_servic.MemoryRepo.Queries.Scoped.{
  IsReached, entities_for_names-All, mentioning-All, via_edges-All, stable_facts-All,
}
use higgsfield_memory_servic.Retrievers.{Ranking}
use higgsfield_memory_servic.Retrievers.Scoped.{
  IsOwned, vector_turns-IsRetrieved, fts_turns-IsRetrieved, vector_memories-IsRetrieved,
  fts_memories-IsRetrieved,
}
use higgsfield_memory_servic.Search.{gather}
use higgsfield_memory_servic.Fusion.Sources.{rrf_fuse-All}
use higgsfield_memory_servic.Assembler.{cited_id, tier_budget}
use higgsfield_memory_servic.Assembler.Cited.{LeadsTo, assemble-Cited}
use higgsfield_memory_servic.Recall.{
  Analysis, RecallIn, Reads, Settings, reached_candidate, edge_candidate, is_memory, retrieve_all,
  entity_candidate, candidates, ranks_before, memory_cands, turn_cands, recall_gate, render_arc,
  answer, answered, recall,
}
use higgsfield_memory_servic.Recall.Database.{retrieve, stored_reads}

-- The number is that of a turn or of a memory of the scope.
abbrev pub IsStored : {F : Type 0} → Db F → Scope → ℕ → Type 0
IsStored db scope k =
    (lookup k (turn_scopes db.turns) ≡ some scope)
    ⊎ (lookup k (memory_scopes db.memories) ≡ some scope)

-- Reads that stay in the scope that they are asked for.
pub record IsScoped {F : Type 0} (db : Db F) (scope : Scope) (reads : Reads F) : Type 0 where
  pub retrieved : (query : Text) → All (IsOwned db scope) (gather (reads.retrieve scope query))
  pub facts :
      All (λ f. RefersTo (turn_scopes db.turns) f.source_turn scope) (reads.stable_facts scope)
  pub entities :
      (names : List Text)
      → All
          (λ k. lookup k (entity_scopes db.entities) ≡ some scope)
          (reads.entities_for_names scope names)
  pub mentioned :
      (ids : List ℕ)
      → All (λ k. lookup k (entity_scopes db.entities) ≡ some scope) ids
      → All (IsReached db scope) (reads.memories_mentioning_entities ids)
  pub neighbours :
      (ids : List ℕ)
      → All (λ k. lookup k (memory_scopes db.memories) ≡ some scope) ids
      → All (λ n. IsReached db scope n.memory) (reads.memories_via_edges ids)

module _ {F : Type 0} (db : Db F) (scope : Scope) where
  reached-IsOwned :
      (source : String) (score : F) (md : Metadata F) (r : Reached F)
      → IsReached db scope r
      → IsOwned db scope (reached_candidate source score md r)
  unfolding reached_candidate
  reached-IsOwned source score md r h = record { place = inr (refl, h.place); source = h.source }

  memory-place :
      (c : Candidate F)
      → is_memory c ≡ true
      → IsOwned db scope c
      → lookup c.id (memory_scopes db.memories) ≡ some scope
  memory-place c kind h = elim h.place [
    | inl t ↦ absurd (turn_no_memory (sym t.0 ∙ eq_of_== c.kind "memory" kind))
    | inr m ↦ m.1
  ]
    where
      turn_no_memory : ¬ (◌≡◌ {A = String} "turn" "memory")
      turn_no_memory e = cc

  place-IsStored : (c : Candidate F) → IsOwned db scope c → IsStored db scope c.id
  place-IsStored c h = elim h.place [ inl t ↦ inl t.1 | inr m ↦ inr m.1 ]

  -- Whichever of the two is cited is stored.
  cited-by-source :
      (kind : Bool) (source : Option ℕ) (id : ℕ)
      → RefersTo (turn_scopes db.turns) source scope
      → IsStored db scope id
      → IsStored db scope (if kind then id else get_or source id)
  cited-by-source true source id hs hi = hi
  cited-by-source false none id hs hi = hi
  cited-by-source false (some k) id hs hi = inl hs

  cited-IsStored :
      (fl : Floats F) (enc : Option Encoding) (c : Candidate F)
      → IsOwned db scope c
      → IsStored db scope (cited_id fl enc c)
  cited-IsStored fl enc c h =
      cited-by-source (c.kind == "turn") c.source_turn c.id h.source (place-IsStored c h)

  module _ (fl : Floats F) (reads : Reads F) (h : IsScoped db scope reads) where
    retrieve_all-IsOwned :
        (queries : List Text) → All (IsOwned db scope) (retrieve_all (reads.retrieve scope) queries)
    unfolding retrieve_all
    retrieve_all-IsOwned [] = tt
    retrieve_all-IsOwned (q ∷ queries) =
        All-append _ (gather (reads.retrieve scope q)) _ (h.retrieved q)
          (retrieve_all-IsOwned queries)

    pub candidates-IsOwned :
        (payload : RecallIn) (analysis : Analysis)
        → All (IsOwned db scope) (candidates fl reads scope payload analysis)
    unfolding candidates
    candidates-IsOwned payload analysis =
        let matched = reads.entities_for_names scope analysis.entities in
        let mentioned =
          if is_empty matched then [] else reads.memories_mentioning_entities matched in
        let queries = take 3 (payload.query ∷ analysis.expanded_queries) in
        let found =
          retrieve_all (reads.retrieve scope) queries
          ++ map (entity_candidate fl reads) mentioned in
        let seeds = take 8 (map (λ c. c.id) (filter is_memory found)) in
        let found_owned =
          All-append (IsOwned db scope) (retrieve_all (reads.retrieve scope) queries) _
            (retrieve_all-IsOwned queries)
            (All-map (IsOwned db scope) (entity_candidate fl reads) mentioned (
              All-mono (IsReached db scope) _ (λ r. reached-IsOwned _ _ _ r) mentioned
                (All-if (IsReached db scope) (is_empty matched) [] _ tt
                  (h.mentioned matched (h.entities analysis.entities))))) in
        All-append (IsOwned db scope) found _ found_owned (
          All-if (IsOwned db scope) (is_empty seeds) [] _ tt (
            All-map (IsOwned db scope) edge_candidate (reads.memories_via_edges seeds) (
              All-mono (λ n. IsReached db scope n.memory) _
                (λ n. reached-IsOwned "edge_hop" n.edge_weight _ n.memory) _
                (h.neighbours seeds (
                  All-take _ 8 _ (
                    All-map _ (λ (c : Candidate F). c.id) (filter is_memory found)
                      (filter-All (IsOwned db scope) _ is_memory memory-place found
                        found_owned)))))))

    -- Every read in the scope is scoped, so is every citation.
    answer-IsStored :
        (enc : Option Encoding) (settings : Settings F) (payload : RecallIn) (analysis : Analysis)
        (fused : List (Candidate F × F))
        → All (λ x. IsOwned db scope x.0) fused
        → All
            (λ c. IsStored db scope c.turn_id)
            (answer fl reads enc settings scope payload analysis fused).1
    unfolding answer
    answer-IsStored enc settings payload analysis fused owned =
        let ranked = All-sort (ranks_before fl reads) (λ x. IsOwned db scope x.0) fused owned in
        let cands = All-map (IsOwned db scope) (λ x. x.0) _ ranked in
        assemble-Cited fl enc (IsStored db scope) (reads.stable_facts scope)
          (memory_cands fl reads fused) (turn_cands fl reads fused)
          (recall_gate fl reads settings scope analysis fused) (tier_budget payload.max_tokens)
          (render_arc fl reads analysis)
          (All-mono _ _ (λ f. leads f.source_turn) (reads.stable_facts scope) h.facts)
          (All-mono (IsOwned db scope) _ (cited-IsStored fl enc) _
            (All-filter_of_All (IsOwned db scope) is_memory _ cands))
          (All-mono (IsOwned db scope) _ (cited-IsStored fl enc) _
            (All-filter_of_All (IsOwned db scope) (λ c. c.kind == "turn") _ cands))
      where
        leads :
            (o : Option ℕ)
            → RefersTo (turn_scopes db.turns) o scope
            → LeadsTo fl enc (IsStored db scope) o
        leads none r = tt
        leads (some k) r = inl r

module _ {F : Type 0} (fl : Floats F) (rk : Ranking F) (turn_scan : Scan (Turn F))
    (memory_scan : Scan (Memory F)) (embed : Text → Option (List F)) (db : Db F)
    (sound : IsSound db) where
  pub retrieve-IsOwned :
      (limit : ℕ) (scope : Scope) (query : Text)
      → All
          (IsOwned db scope)
          (gather (retrieve fl rk turn_scan memory_scan embed limit db scope query))
  unfolding retrieve gather
  retrieve-IsOwned limit scope query =
      let P = IsOwned db scope in
      All-append P _ _
        (vector_turns-IsRetrieved db scope limit sound fl rk turn_scan (embed query)).owned
        (All-append P _ _ (fts_turns-IsRetrieved db scope limit sound fl rk turn_scan query).owned (
          All-append P _ _
            (vector_memories-IsRetrieved db scope limit sound fl rk memory_scan (embed query)).owned
            (All-append P _ []
              (fts_memories-IsRetrieved db scope limit sound fl rk memory_scan query).owned tt)))

module _ {F : Type 0} (fl : Floats F) (order : IsOrdered fl) (rk : Ranking F)
    (turn_scan : Scan (Turn F)) (memory_scan : Scan (Memory F)) (embed : Text → Option (List F))
    (settings : Settings F) (db : Db F) (sound : IsSound db) where
  abbrev stored : Reads F
  stored = stored_reads fl rk turn_scan memory_scan embed settings db

  pub stored_reads-IsScoped : (scope : Scope) → IsScoped db scope stored
  unfolding stored_reads
  stored_reads-IsScoped scope = record {
    retrieved =
        retrieve-IsOwned fl rk turn_scan memory_scan embed db sound settings.default_recall_k scope;
    facts =
        All-mono _ _ (λ f h. h.1) _
          (stable_facts-All fl memory_scan db sound scope (fl.decimal 5 1) 16);
    entities = λ names. All-map _ _ _ (entities_for_names-All fl memory_scan db sound scope names);
    mentioned = λ ids mine. mentioning-All fl memory_scan db sound scope ids mine 12;
    neighbours = λ ids mine. via_edges-All fl memory_scan db sound scope ids mine 12;
  }

  -- Over tables that are sound, for numbers that are ordered, with no NaN among them: a recall
  -- returns, and everything it cites is a turn or a memory of the scope of the request, the user's
  -- if the request names one, else the session's.
  pub recall-IsStored :
      (enc : Option Encoding) (payload : RecallIn) (analysis : Analysis)
      → (out : Text × List (Citation F)) × (recall fl stored enc settings payload analysis
          ≡ some out)
        × All (λ c. IsStored db (scope_for payload.user_id payload.session_id) c.turn_id) out.1
  unfolding recall
  recall-IsStored enc payload analysis =
      let scope = scope_for payload.user_id payload.session_id in
      let scoped = stored_reads-IsScoped scope in
      let (fused, done, owned) =
        rrf_fuse-All (IsOwned db scope) fl order (candidates fl stored scope payload analysis)
          settings.rrf_k (candidates-IsOwned db scope fl stored scoped payload analysis) in
      (
        answer fl stored enc settings scope payload analysis fused,
        ap (answered fl stored enc settings scope payload analysis) done,
        answer-IsStored db scope fl stored scoped enc settings payload analysis fused owned,
      )
