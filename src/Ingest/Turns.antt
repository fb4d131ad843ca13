-- ===== src/Ingest/Turns.antt =====
-- The transaction of POST /turns adds one turn and leaves the others as they are.
use higgsfield_memory_servic.Prelude.{
  ℕ, ◌+◌, Bool, true, false, ◌≡◌, refl, ◌∙◌, Option, none, some, List, [], ◌∷◌, ◌++◌, if◌then◌else◌,
  find, nat_eq,
}
use higgsfield_memory_servic.Text.{Text, is_empty}
use higgsfield_memory_servic.Numbers.{Floats}
use higgsfield_memory_servic.Datetime.{Datetime}
use higgsfield_memory_servic.Models.{EntityMention, MemoryCandidate}
use higgsfield_memory_servic.Store.{Scope, Turn, Memory, Entity, Db, scope_eq}
use higgsfield_memory_servic.TurnRepo.{
  TurnIn, scope_for, flatten_messages, insert_turn, vector_column,
}
use higgsfield_memory_servic.MemoryRepo.{
  Scan, insert_memory, upsert_entity, upserted, same_entity, deactivate,
}
use higgsfield_memory_servic.Reconciler.{ReconcileDecision, reconcile, apply_decision}
use higgsfield_memory_servic.Ingest.Edges.{link_memories-HasRowsOf}
use higgsfield_memory_servic.Ingest.Isolation.{link_mention-turns}
use higgsfield_memory_servic.Ingest.{
  Batch, link_entities, store_candidate, ingest_candidate, ingest_candidates, ingest_turn,
}

module _ {F : Type 0} where
  upsert_entity-turns :
      (scope : Scope) (name : Text) (type : Option Text) (db : Db F)
      → (upsert_entity scope name type db).1.turns ≡ db.turns
  unfolding upsert_entity
  upsert_entity-turns scope name type db = by_hit (find (same_entity scope name type) db.entities)
    where
      by_hit : (o : Option Entity) → (upserted scope name type db o).1.turns ≡ db.turns
      by_hit none = refl
      by_hit (some e) = refl

  turns-if :
      (b : Bool) (d e next : Db F)
      → d.turns ≡ next.turns
      → e.turns ≡ next.turns
      → (if b then d else e).turns ≡ next.turns
  turns-if true d e next p q = p
  turns-if false d e next p q = q

  link_entities-turns :
      (scope : Scope) (mem_id : ℕ) (es : List EntityMention) (db : Db F)
      → (link_entities scope mem_id es db).turns ≡ db.turns
  unfolding link_entities
  link_entities-turns scope mem_id [] db = refl
  link_entities-turns scope mem_id (e ∷ es) db =
      link_entities-turns scope mem_id es _
      ∙ turns-if (is_empty e.name) db _ db refl
          (link_mention-turns mem_id _ _ ∙ upsert_entity-turns scope e.name e.type db)

  apply_decision-turns :
      (d : ReconcileDecision) (db : Db F) → (apply_decision d db).turns ≡ db.turns
  unfolding apply_decision deactivate
  apply_decision-turns d db = turns-if (is_empty d.deactivate_ids) db _ db refl refl

  module _ (fl : Floats F) (now : Datetime) (scope : Scope) (session_id : Text) (turn_id : ℕ)
      (sc : Scan (Memory F)) where
    ingest_candidate-turns :
        (cand : MemoryCandidate F) (vec : Option (List F)) (b : Batch F)
        → (ingest_candidate fl now scope session_id turn_id sc cand vec b).db.turns ≡ b.db.turns
    unfolding ingest_candidate store_candidate insert_memory
    ingest_candidate-turns cand vec b =
        let d = reconcile sc scope cand b.db in
        by_insert d.insert _ _
          (link_entities-turns scope _ cand.entities _ ∙ apply_decision-turns d b.db)
          (apply_decision-turns d b.db)
      where
        by_insert :
            (i : Bool) (x y : Batch F)
            → x.db.turns ≡ b.db.turns
            → y.db.turns ≡ b.db.turns
            → (if i then x else y).db.turns ≡ b.db.turns
        by_insert true x y p q = p
        by_insert false x y p q = q

    ingest_candidates-turns :
        (rest : List (MemoryCandidate F × Option (List F))) (b : Batch F)
        → (ingest_candidates fl now scope session_id turn_id sc rest b).db.turns ≡ b.db.turns
    unfolding ingest_candidates
    ingest_candidates-turns [] b = refl
    ingest_candidates-turns ((cand, vec) ∷ rest) b =
        ingest_candidates-turns rest _ ∙ ingest_candidate-turns cand vec b

module _ {F : Type 0} (fl : Floats F) where
  -- The turn that the transaction stores.
  abbrev pub turn_row : ℕ → TurnIn F → Option (List F) → Turn F
  turn_row turn_id payload embedding = record {
    id = turn_id;
    session_id = payload.session_id;
    user_id = payload.user_id;
    scope = scope_for payload.user_id payload.session_id;
    messages = payload.messages;
    full_text = flatten_messages payload.messages;
    timestamp = payload.timestamp;
    metadata = payload.metadata;
    embedding = vector_column fl embedding;
  }

  pub ingest_turn-turns :
      (sc : Scan (Memory F)) (now : Datetime) (payload : TurnIn F) (embedding : Option (List F))
      (candidates : List (MemoryCandidate F × Option (List F))) (db : Db F)
      → (ingest_turn fl sc now payload embedding candidates db).turns
        ≡ db.turns ++ (turn_row db.supply payload embedding ∷ [])
  unfolding ingest_turn insert_turn
  ingest_turn-turns sc now payload embedding candidates db =
      let scope = scope_for payload.user_id payload.session_id in
      let start : Batch F = record {
        db = insert_turn fl db.supply payload embedding (record db { supply = db.supply + 1 });
        inserted = [];
        superseded_memories = 0;
      } in
      let b = ingest_candidates fl now scope payload.session_id db.supply sc candidates start in
      (link_memories-HasRowsOf fl scope b.inserted b.inserted b.db).turns
      ∙ ingest_candidates-turns fl now scope payload.session_id db.supply sc candidates start
