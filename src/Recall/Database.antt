-- ===== src/Recall/Database.antt =====
-- The reads of recall and search over the tables: the four retrievers, and the reads of the
-- repository with the limits that src/memory_service/services/recall.py gives them.
use higgsfield_memory_servic.Prelude.{ℕ, Option, some, List, [], ◌∷◌, map}
use higgsfield_memory_servic.Text.{Text}
use higgsfield_memory_servic.Numbers.{Floats}
use higgsfield_memory_servic.Candidate.{Candidate}
use higgsfield_memory_servic.Store.{Scope, Turn, Memory, Db}
use higgsfield_memory_servic.MemoryRepo.{Scan}
use higgsfield_memory_servic.MemoryRepo.Queries.{
  list_stable_facts, entities_for_names, memories_mentioning_entities, memories_via_edges,
}
use higgsfield_memory_servic.Retrievers.{
  Ranking, vector_turns, fts_turns, vector_memories, fts_memories,
}
use higgsfield_memory_servic.Recall.{Reads, Settings}

module _ {F : Type 0} (fl : Floats F) (rk : Ranking F) (turn_scan : Scan (Turn F))
    (memory_scan : Scan (Memory F)) (embed : Text → Option (List F)) where
  -- The four retrievers for one query, in the order of the `gather`.
  unfoldable pub retrieve : ℕ → Db F → Scope → Text → List (Option (List (Candidate F)))
  unfolding vector_turns fts_turns vector_memories fts_memories
  retrieve limit db scope query =
      some (vector_turns fl rk turn_scan (embed query) scope limit db)
      ∷ some (fts_turns fl rk turn_scan query scope limit db)
      ∷ some (vector_memories fl rk memory_scan (embed query) scope limit db)
      ∷ some (fts_memories fl rk memory_scan query scope limit db)
      ∷ []

  unfoldable pub stored_reads : Settings F → Db F → Reads F
  unfolding retrieve list_stable_facts entities_for_names memories_mentioning_entities
      memories_via_edges
  stored_reads settings db = record {
    retrieve = retrieve settings.default_recall_k db;
    stable_facts = λ scope. list_stable_facts fl memory_scan scope (fl.decimal 5 1) 16 db;
    entities_for_names = λ scope names. map (λ e. e.id) (entities_for_names scope names db);
    memories_mentioning_entities = λ ids. memories_mentioning_entities fl memory_scan ids 12 db;
    memories_via_edges = λ ids. memories_via_edges fl memory_scan ids 12 db;
  }
