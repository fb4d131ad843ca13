-- ===== src/Recall.antt =====
-- src/memory_service/services/recall.py: POST /recall, from the analysis of the query on. What the
-- retrievers and the reads of the repository return are arguments, one for each (`Reads`).
pub mod Answers
pub mod Database
pub mod Scoped
pub mod Route
use higgsfield_memory_servic.Prelude.{
  ℕ, String, Bool, true, false, ◌&&◌, ◌||◌, not, Option, none, some, List, [], ◌∷◌, ◌++◌, map, ◌==◌,
  string_eq, if◌then◌else◌, filter, take,
}
use higgsfield_memory_servic.Text.{Text, codes, is_empty}
use higgsfield_memory_servic.Numbers.{Floats}
use higgsfield_memory_servic.Datetime.{Datetime}
use higgsfield_memory_servic.Candidate.{Prior, Value, Metadata, Candidate}
use higgsfield_memory_servic.Models.{MemoryType}
use higgsfield_memory_servic.Taxonomy.{type_name}
use higgsfield_memory_servic.Sorting.{sort}
use higgsfield_memory_servic.Tokens.{Encoding}
use higgsfield_memory_servic.Store.{Scope}
use higgsfield_memory_servic.TurnRepo.{scope_for}
use higgsfield_memory_servic.MemoryRepo.Queries.{Reached, Neighbour}
use higgsfield_memory_servic.Search.{gather}
use higgsfield_memory_servic.Fusion.{group_by_source, rrf_fuse}
use higgsfield_memory_servic.Gate.{
  GateState, Signals, decide_gate, has_memory_signal, has_turn_signal,
}
use higgsfield_memory_servic.Format.{StableFact, Citation}
use higgsfield_memory_servic.Assembler.{tier_budget, assemble}

-- What the analyzer returns, as far as recall reads it.
pub record Analysis : Type 0 where
  pub intent : String
  pub profile_relevant : Bool
  pub entities : List Text
  pub expanded_queries : List Text

-- `RecallIn` of src/memory_service/schemas/recall.py
pub record RecallIn : Type 0 where
  pub query : Text
  pub session_id : Text
  pub user_id : Option Text
  pub max_tokens : ℕ

-- The retrievers for one query, `none` for one that failed, and the four reads.
pub record Reads (F : Type 0) : Type 0 where
  pub retrieve : Scope → Text → List (Option (List (Candidate F)))
  pub stable_facts : Scope → List (StableFact F)
  pub entities_for_names : Scope → List Text → List ℕ
  pub memories_mentioning_entities : List ℕ → List (Reached F)
  pub memories_via_edges : List ℕ → List (Neighbour F)

-- The part of src/memory_service/config.py that recall reads.
pub record Settings (F : Type 0) : Type 0 where
  pub default_recall_k : ℕ
  pub rrf_k : ℕ
  pub min_relevance_cosine : F

module _ {F : Type 0} where
  abbrev prior_metadata : Option Prior → Metadata F → Metadata F
  prior_metadata none md = md
  prior_metadata (some prior) md = md ++ (("prior", Value.arc prior) ∷ [])

  abbrev base_metadata : Reached F → Metadata F
  base_metadata em =
      ("type", Value.str (type_name em.type))
      ∷ ("predicate", Value.str em.predicate)
      ∷ ("object", Value.str em.object)
      ∷ ("confidence", Value.float em.confidence)
      ∷ []

  unfoldable pub reached_candidate : String → F → Metadata F → Reached F → Candidate F
  reached_candidate source score metadata em = record {
    source = source;
    kind = "memory";
    id = em.id;
    score = score;
    content = em.value;
    session_id = em.source_session;
    timestamp = em.updated_at;
    source_turn = em.source_turn;
    metadata = prior_metadata em.prior metadata;
  }

  abbrev pub edge_candidate : Neighbour F → Candidate F
  edge_candidate n =
      reached_candidate "edge_hop" n.edge_weight
        (base_metadata n.memory ++ (("edge_relations", Value.tags n.relations) ∷ [])) n.memory

  abbrev pub is_memory : Candidate F → Bool
  is_memory c = c.kind == "memory"

  -- The loop over the queries, the original one and two more at most.
  unfoldable pub retrieve_all :
      (Text → List (Option (List (Candidate F)))) → List Text → List (Candidate F)
  unfolding gather
  retrieve_all run [] = []
  retrieve_all run (q ∷ queries) = gather (run q) ++ retrieve_all run queries

module _ {F : Type 0} (fl : Floats F) (reads : Reads F) where
  abbrev pub entity_candidate : Reached F → Candidate F
  entity_candidate em = reached_candidate "graph" (fl.decimal 9 1) (base_metadata em) em

  -- Everything that is fused: the retrievers' hits, the memories of named entities, and the memories
  -- one edge away from the first eight.
  unfoldable pub candidates : Scope → RecallIn → Analysis → List (Candidate F)
  unfolding retrieve_all reached_candidate string_eq
  candidates scope payload analysis =
      let queries = take 3 (payload.query ∷ analysis.expanded_queries) in
      let matched = reads.entities_for_names scope analysis.entities in
      let mentioned = if is_empty matched then [] else reads.memories_mentioning_entities matched in
      let found = retrieve_all (reads.retrieve scope) queries ++ map entity_candidate mentioned in
      let seeds = take 8 (map (λ c. c.id) (filter is_memory found)) in
      found ++ (if is_empty seeds then [] else map edge_candidate (reads.memories_via_edges seeds))

  -- `(x[0].kind != "memory", -x[1])`
  abbrev ranks_before : Candidate F × F → Candidate F × F → Bool
  ranks_before x y =
      is_memory x.0 && not (is_memory y.0)
      || (if is_memory y.0 then is_memory x.0 else not (is_memory x.0)) && fl.lt y.1 x.1

  -- Memories before turns, each kind best first.
  abbrev pub memory_cands : List (Candidate F × F) → List (Candidate F)
  memory_cands fused = filter is_memory (map (λ x. x.0) (sort ranks_before fused))

  abbrev pub turn_cands : List (Candidate F × F) → List (Candidate F)
  turn_cands fused = filter (λ c. c.kind == "turn") (map (λ x. x.0) (sort ranks_before fused))

  abbrev pub recall_gate : Settings F → Scope → Analysis → List (Candidate F × F) → GateState
  recall_gate settings scope analysis fused = decide_gate (record {
    profile_relevant = analysis.profile_relevant;
    is_open_ended_about_user =
        analysis.profile_relevant
        && (analysis.intent == "exploratory" || analysis.intent == "recent_context");
    has_memory_signal = has_memory_signal fl settings.min_relevance_cosine (memory_cands fused);
    has_turn_signal = has_turn_signal fl settings.min_relevance_cosine (turn_cands fused);
    has_entity_match = not (is_empty (reads.entities_for_names scope analysis.entities));
  })

  abbrev pub render_arc : Analysis → Bool
  render_arc analysis = analysis.intent == "exploratory" || analysis.intent == "factoid_about_user"

  -- The rest of `recall`, from the fused hits on.
  unfoldable pub answer :
      Option Encoding
      → Settings F
      → Scope
      → RecallIn
      → Analysis
      → List (Candidate F × F)
      → Text × List (Citation F)
  unfolding assemble decide_gate has_memory_signal has_turn_signal sort string_eq
  answer enc settings scope payload analysis fused =
      assemble fl enc (reads.stable_facts scope) (memory_cands fused) (turn_cands fused)
        (recall_gate settings scope analysis fused) (tier_budget payload.max_tokens)
        (render_arc analysis)

  abbrev pub answered :
      Option Encoding
      → Settings F
      → Scope
      → RecallIn
      → Analysis
      → Option (List (Candidate F × F))
      → Option (Text × List (Citation F))
  answered enc settings scope payload analysis none = none
  answered enc settings scope payload analysis (some fused) =
      some (answer enc settings scope payload analysis fused)

  -- `none` is an exception of the fusion.
  unfoldable pub recall :
      Option Encoding → Settings F → RecallIn → Analysis → Option (Text × List (Citation F))
  unfolding answer candidates group_by_source rrf_fuse scope_for
  recall enc settings payload analysis =
      let scope = scope_for payload.user_id payload.session_id in
      answered enc settings scope payload analysis
        (rrf_fuse fl (group_by_source (candidates scope payload analysis)) settings.rrf_k)
