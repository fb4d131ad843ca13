-- ===== src/Retrievers.antt =====
-- src/memory_service/services/retrievers.py. The operators of pgvector and of Postgres's text search
-- are parameters (`Ranking`), and so is what an index scan of the embeddings meets, and so is the embedder; `none` from it stands for a client that is
-- disabled or that failed.
pub mod Scoped
pub mod Complete
use higgsfield_memory_servic.Prelude.{
  ℕ, String, Bool, true, false, ◌&&◌, Option, none, some, List, [], ◌∷◌, ◌++◌, map, ◌==◌,
  if◌then◌else◌, filter, take,
}
use higgsfield_memory_servic.Text.{Text, is_empty}
use higgsfield_memory_servic.Numbers.{Floats}
use higgsfield_memory_servic.Sorting.{sort}
use higgsfield_memory_servic.Candidate.{Prior, Value, Metadata, Candidate}
use higgsfield_memory_servic.QueryText.{to_or_tsquery}
use higgsfield_memory_servic.Taxonomy.{type_name}
use higgsfield_memory_servic.Store.{Scope, Turn, Memory, Db, row_key, scope_eq}
use higgsfield_memory_servic.MemoryRepo.{Scan, Index}
use higgsfield_memory_servic.MemoryRepo.Queries.{prior_of_row}

-- `a <=> b`, `1 - x`, and `tsv @@ q` and `ts_rank_cd(tsv, q)` by the row whose `tsv` it is.
pub record Ranking (F : Type 0) : Type 0 where
  pub distance : List F → List F → F
  pub similarity : F → F
  -- The scans of the HNSW indexes, for a vector.
  pub turn_index : List F → Index (Turn F)
  pub memory_index : List F → Index (Memory F)
  pub turn_matches : Text → Turn F → Bool
  pub turn_rank : Text → Turn F → F
  pub memory_matches : Text → Memory F → Bool
  pub memory_rank : Text → Memory F → F

module _ {F : Type 0} where
  -- A row of the turns, as a hit. The JSON codec of the pool hands the metadata back as a dict.
  unfoldable pub turn_candidate : String → (Turn F → F) → Turn F → Candidate F
  turn_candidate source score t = record {
    source = source;
    kind = "turn";
    id = t.id;
    score = score t;
    content = t.full_text;
    session_id = some t.session_id;
    timestamp = some t.timestamp;
    source_turn = some t.id;
    metadata = t.metadata;
  }

  -- `_with_prior`
  abbrev pub with_prior : Metadata F → Option Prior → Metadata F
  with_prior base_meta none = base_meta
  with_prior base_meta (some prior) = base_meta ++ (("prior", Value.arc prior) ∷ [])

  unfoldable pub memory_candidate : String → (Memory F → F) → Db F → Memory F → Candidate F
  unfolding prior_of_row
  memory_candidate source score db m = record {
    source = source;
    kind = "memory";
    id = m.id;
    score = score m;
    content = m.value;
    session_id = m.source_session;
    timestamp = some m.updated_at;
    source_turn = m.source_turn;
    metadata =
        with_prior
          (("type", Value.str (type_name m.type))
            ∷ ("key", Value.str (row_key m))
            ∷ ("confidence", Value.float m.confidence)
            ∷ [])
          (prior_of_row db m);
  }

module _ {F : Type 0} (fl : Floats F) (rk : Ranking F) where
  -- `_embedding_param`, as pgvector reads it
  abbrev embedding_param : List F → List F
  embedding_param = map fl.vector_element

  -- The distance of a row's embedding from a vector; rows without one are left out before.
  abbrev distance_to : List F → Option (List F) → F
  distance_to vec none = fl.zero_f
  distance_to vec (some e) = rk.distance e vec

  abbrev has_embedding : Option (List F) → Bool
  has_embedding none = false
  has_embedding (some _) = true

  -- ORDER BY embedding <=> vec
  abbrev nearer : {A : Type 0} → (A → F) → A → A → Bool
  nearer d a b = fl.lt (d a) (d b)

  -- ORDER BY score DESC
  abbrev better : {A : Type 0} → (A → F) → A → A → Bool
  better score a b = fl.lt (score b) (score a)

  module _ (sc : Scan (Turn F)) where
    unfoldable pub turns_near : Scope → ℕ → List F → Db F → List (Candidate F)
    unfolding sort scope_eq turn_candidate
    turns_near scope limit vec db =
        let param = embedding_param vec in
        let d = λ (t : Turn F). distance_to param t.embedding in
        map (turn_candidate "turn_vector" (λ t. rk.similarity (d t))) (
          take limit (
            sort (nearer d) (
              sc.scan (
                filter (λ t. t.scope == scope && has_embedding t.embedding)
                  ((rk.turn_index param).near db.turns)))))

    unfoldable pub vector_turns : Option (List F) → Scope → ℕ → Db F → List (Candidate F)
    unfolding turns_near
    vector_turns none scope limit db = []
    vector_turns (some vec) scope limit db = turns_near scope limit vec db

    unfoldable pub fts_turns : Text → Scope → ℕ → Db F → List (Candidate F)
    unfolding sort scope_eq turn_candidate to_or_tsquery
    fts_turns query scope limit db =
        let tsq = to_or_tsquery query in
        if is_empty tsq
        then []
        else map (turn_candidate "turn_fts" (rk.turn_rank tsq)) (
            take limit (
              sort (better (rk.turn_rank tsq))
                (sc.scan (filter (λ t. t.scope == scope && rk.turn_matches tsq t) db.turns))))

  module _ (sc : Scan (Memory F)) where
    unfoldable pub memories_near : Scope → ℕ → List F → Db F → List (Candidate F)
    unfolding sort scope_eq memory_candidate
    memories_near scope limit vec db =
        let param = embedding_param vec in
        let d = λ (m : Memory F). distance_to param m.embedding in
        map (memory_candidate "memory_vector" (λ m. rk.similarity (d m)) db) (
          take limit (
            sort (nearer d) (
              sc.scan (
                filter (λ m. m.scope == scope && m.active && has_embedding m.embedding)
                  ((rk.memory_index param).near db.memories)))))

    unfoldable pub vector_memories : Option (List F) → Scope → ℕ → Db F → List (Candidate F)
    unfolding memories_near
    vector_memories none scope limit db = []
    vector_memories (some vec) scope limit db = memories_near scope limit vec db

    unfoldable pub fts_memories : Text → Scope → ℕ → Db F → List (Candidate F)
    unfolding sort scope_eq memory_candidate to_or_tsquery
    fts_memories query scope limit db =
        let tsq = to_or_tsquery query in
        if is_empty tsq
        then []
        else map (memory_candidate "memory_fts" (rk.memory_rank tsq) db) (
            take limit (
              sort (better (rk.memory_rank tsq)) (
                sc.scan (
                  filter (λ m. m.scope == scope && m.active && rk.memory_matches tsq m)
                    db.memories))))
