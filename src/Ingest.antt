-- ===== src/Ingest.antt =====
-- src/memory_service/api/routes_turns.py: the transaction of POST /turns. The embeddings and the
-- candidates come from outside the transaction and are arguments.
pub mod Current
pub mod Edges
pub mod Isolation
pub mod Batches
pub mod Transaction
pub mod Turns
pub mod Visible
pub mod Bystanders
pub mod Route
use higgsfield_memory_servic.Prelude.{
  ℕ, suc, ◌+◌, String, Bool, true, false, not, Option, none, some, List, [], ◌∷◌, ◌++◌, map, ◌==◌,
  nat_eq, if◌then◌else◌,
}
use higgsfield_memory_servic.Text.{Text, is_empty}
use higgsfield_memory_servic.Numbers.{Floats}
use higgsfield_memory_servic.Datetime.{Datetime}
use higgsfield_memory_servic.Models.{EntityMention, MemoryCandidate}
use higgsfield_memory_servic.Store.{Scope, Memory, Db}
use higgsfield_memory_servic.TurnRepo.{TurnIn, scope_for, insert_turn}
use higgsfield_memory_servic.MemoryRepo.{
  Scan, insert_memory, upsert_entity, link_mention, insert_edge, active_memories_with_subject,
}
use higgsfield_memory_servic.Reconciler.{ReconcileDecision, reconcile, apply_decision}

abbrev pub quote_or_null : Text → Option Text
quote_or_null q = if is_empty q then none else some q

abbrev pub count_superseded : Option ℕ → ℕ → ℕ
count_superseded none n = n
count_superseded (some _) n = n + 1

-- What the loop over the candidates keeps: the tables, and the ids and subjects that it inserted.
pub record Batch (F : Type 0) : Type 0 where
  pub db : Db F
  pub inserted : List (ℕ × Text)
  pub superseded_memories : ℕ

module _ {F : Type 0} where
  -- `for ent in cand.entities`
  unfoldable pub link_entities : Scope → ℕ → List EntityMention → Db F → Db F
  unfolding upsert_entity link_mention
  link_entities scope mem_id [] db = db
  link_entities scope mem_id (ent ∷ entities) db =
      let (eid, linked) = upsert_entity scope ent.name ent.type db in
      link_entities scope mem_id entities
        (if is_empty ent.name then db else link_mention mem_id eid linked)

  module _ (now : Datetime) (scope : Scope) (session_id : Text) (turn_id : ℕ) where
    abbrev pub new_row : MemoryCandidate F → Option (List F) → ReconcileDecision → ℕ → Memory F
    new_row cand vec decision mem_id = record {
      id = mem_id;
      scope = scope;
      type = cand.type;
      subject = cand.subject;
      predicate = cand.predicate;
      object = cand.object;
      value = cand.value;
      raw_quote = quote_or_null cand.raw_quote;
      confidence = cand.confidence;
      source_session = some session_id;
      source_turn = some turn_id;
      created_at = now;
      updated_at = now;
      supersedes = decision.supersedes;
      active = decision.active;
      embedding = vec;
    }

  module _ (fl : Floats F) (now : Datetime) (scope : Scope) (session_id : Text) (turn_id : ℕ) where
    -- The insertion, when the decision asks for it. The new id is `uuid.uuid4()`.
    unfoldable pub store_candidate :
        MemoryCandidate F → Option (List F) → ReconcileDecision → Db F → Db F
    unfolding link_entities insert_memory
    store_candidate cand vec decision db =
        let mem_id = db.supply in
        link_entities scope mem_id cand.entities (
          insert_memory fl (new_row now scope session_id turn_id cand vec decision mem_id)
            (record db { supply = mem_id + 1 }))

    -- The body of the loop over the candidates.
    unfoldable pub ingest_candidate :
        Scan (Memory F) → MemoryCandidate F → Option (List F) → Batch F → Batch F
    unfolding reconcile apply_decision store_candidate
    ingest_candidate sc cand vec b =
        let decision = reconcile sc scope cand b.db in
        let applied = apply_decision decision b.db in
        if decision.insert
        then record {
          db = store_candidate cand vec decision applied;
          inserted = b.inserted ++ ((applied.supply, cand.subject) ∷ []);
          superseded_memories = count_superseded decision.supersedes b.superseded_memories;
        }
        else record b { db = applied }

    unfoldable pub ingest_candidates :
        Scan (Memory F) → List (MemoryCandidate F × Option (List F)) → Batch F → Batch F
    unfolding ingest_candidate
    ingest_candidates sc [] b = b
    ingest_candidates sc ((cand, vec) ∷ rest) b =
        ingest_candidates sc rest (ingest_candidate sc cand vec b)

module _ {F : Type 0} (fl : Floats F) where
  -- `co_extracted` edges from one new memory to the others of the turn: `i == j` is the test of
  -- `insert_edge` for equal ids, since each id is drawn once.
  unfoldable pub link_co_extracted : ℕ → List (ℕ × Text) → Db F → Db F
  unfolding insert_edge
  link_co_extracted src [] db = db
  link_co_extracted src ((dst, _) ∷ rest) db =
      link_co_extracted src rest (insert_edge fl src dst "co_extracted" (fl.decimal 7 1) db)

  -- `same_subject` edges between one new memory and its peers, in both directions.
  unfoldable pub link_peers : ℕ → List ℕ → Db F → Db F
  unfolding insert_edge
  link_peers src [] db = db
  link_peers src (peer ∷ peers) db = link_peers src peers (
      insert_edge fl peer src "same_subject" (fl.decimal 5 1)
        (insert_edge fl src peer "same_subject" (fl.decimal 5 1) db))

  unfoldable pub link_memories : Scope → List (ℕ × Text) → List (ℕ × Text) → Db F → Db F
  unfolding link_co_extracted link_peers active_memories_with_subject
  link_memories scope inserted [] db = db
  link_memories scope inserted ((src, subject) ∷ rest) db =
      let db1 = link_co_extracted src inserted db in
      link_memories scope inserted rest
        (link_peers src (active_memories_with_subject scope subject src db1) db1)

  -- The transaction. `turn_id` is drawn first.
  unfoldable pub ingest_turn :
      Scan (Memory F)
      → Datetime
      → TurnIn F
      → Option (List F)
      → List (MemoryCandidate F × Option (List F))
      → Db F
      → Db F
  unfolding ingest_candidates link_memories insert_turn scope_for
  ingest_turn sc now payload turn_embedding candidates db =
      let turn_id = db.supply in
      let scope = scope_for payload.user_id payload.session_id in
      let stored =
        insert_turn fl turn_id payload turn_embedding (record db { supply = turn_id + 1 }) in
      let b =
        ingest_candidates fl now scope payload.session_id turn_id sc candidates
          (record { db = stored; inserted = []; superseded_memories = 0 }) in
      link_memories scope b.inserted b.inserted b.db
