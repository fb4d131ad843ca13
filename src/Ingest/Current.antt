-- ===== src/Ingest/Current.antt =====
-- What one candidate of a turn leaves as the active rows of its key.
use higgsfield_memory_servic.Prelude.{
  ℕ, Bool, true, false, ◌≡◌, refl, ◌∙◌, ap, Option, none, some, List, [], ◌∷◌, ◌++◌, arith, ==_refl,
  if◌then◌else◌, any, count, count-append, find,
}
use higgsfield_memory_servic.Numbers.{Floats}
use higgsfield_memory_servic.Text.{Text, is_empty}
use higgsfield_memory_servic.Datetime.{Datetime}
use higgsfield_memory_servic.Models.{EntityMention, MemoryCandidate, key, one}
use higgsfield_memory_servic.Taxonomy.{spec_for}
use higgsfield_memory_servic.Store.{Scope, Memory, Entity, Db, scope_eq}
use higgsfield_memory_servic.MemoryRepo.{
  Scan, kept_memory, insert_memory, upsert_entity, upserted, same_entity, link_mention,
}
use higgsfield_memory_servic.Reconciler.{
  ReconcileDecision, replace, same_object, active_about, reconcile, apply_decision,
}
use higgsfield_memory_servic.Reconciler.Decisions.{
  is_current, reconcile_replaces, apply_replace-current,
}
use higgsfield_memory_servic.Ingest.{
  Batch, link_entities, new_row, store_candidate, ingest_candidate,
}

module _ {F : Type 0} where
  upsert_entity-memories :
      (scope : Scope) (name : Text) (type : Option Text) (db : Db F)
      → (upsert_entity scope name type db).1.memories ≡ db.memories
  unfolding upsert_entity
  upsert_entity-memories scope name type db =
      by_hit (find (same_entity scope name type) db.entities)
    where
      by_hit : (o : Option Entity) → (upserted scope name type db o).1.memories ≡ db.memories
      by_hit none = refl
      by_hit (some e) = refl

  pub link_mention-memories :
      (memory_id entity_id : ℕ) (db : Db F)
      → (link_mention memory_id entity_id db).memories ≡ db.memories
  unfolding link_mention
  link_mention-memories memory_id entity_id db = ground arith

  link_entities-memories :
      (scope : Scope) (mem_id : ℕ) (es : List EntityMention) (db : Db F)
      → (link_entities scope mem_id es db).memories ≡ db.memories
  unfolding link_entities
  link_entities-memories scope mem_id [] db = refl
  link_entities-memories scope mem_id (e ∷ es) db =
      link_entities-memories scope mem_id es _ ∙ one_step (is_empty e.name)
    where
      one_step :
          (b : Bool)
          → (if b
              then db
              else link_mention mem_id
                  (upsert_entity scope e.name e.type db).0
                  (upsert_entity scope e.name e.type db).1).memories
            ≡ db.memories
      one_step true = refl
      one_step false =
          link_mention-memories mem_id _ _ ∙ upsert_entity-memories scope e.name e.type db

module _ {F : Type 0} (fl : Floats F) (now : Datetime) (scope : Scope) (session_id : Text)
    (turn_id : ℕ) where
  module _ (cand : MemoryCandidate F) (vec : Option (List F)) where
    new_row-is_current :
        (rows : List (Memory F)) (id : ℕ)
        → is_current scope
            (key cand)
            (kept_memory fl (new_row now scope session_id turn_id cand vec (replace rows) id))
          ≡ true
    unfolding key
    new_row-is_current rows id = rw (==_refl scope, ==_refl (key cand)) refl

    pub store_candidate-memories :
        (d : ReconcileDecision) (db : Db F)
        → (store_candidate fl now scope session_id turn_id cand vec d db).memories
          ≡ db.memories
            ++ kept_memory fl (new_row now scope session_id turn_id cand vec d db.supply) ∷ []
    unfolding store_candidate insert_memory
    store_candidate-memories d db = link_entities-memories scope db.supply cand.entities _

    ingest_replaces :
        (sc : Scan (Memory F)) (b : Batch F) (rows : List (Memory F))
        → reconcile sc scope cand b.db ≡ replace rows
        → (ingest_candidate fl now scope session_id turn_id sc cand vec b).db
          ≡ store_candidate fl now scope session_id turn_id cand vec
              (replace rows)
              (apply_decision (replace rows) b.db)
    unfolding ingest_candidate
    ingest_replaces sc b rows eq = rw eq refl

    -- A candidate of a single-valued predicate whose object no active row of its scope and key has,
    -- whatever the tables held before and whatever the order of the scan: afterwards exactly one row of the scope and key is
    -- active.
    pub ingest_candidate_one :
        (sc : Scan (Memory F)) (b : Batch F)
        → (spec_for cand.predicate).multiplicity ≡ one
        → any (same_object cand.object) (active_about sc scope (key cand) b.db.memories) ≡ false
        → count
            (is_current scope (key cand))
            (ingest_candidate fl now scope session_id turn_id sc cand vec b).db.memories
          ≡ 1
    ingest_candidate_one sc b single fresh =
        let rows = active_about sc scope (key cand) b.db.memories in
        let applied = apply_decision (replace rows) b.db in
        ap (λ db. count (is_current scope (key cand)) db.memories)
          (ingest_replaces sc b rows (reconcile_replaces sc scope cand b.db single fresh))
        ∙ ap (count (is_current scope (key cand))) (store_candidate-memories (replace rows) applied)
        ∙ count-append (is_current scope (key cand)) applied.memories _
        ∙ rw (apply_replace-current sc scope cand b.db, new_row-is_current rows applied.supply) refl
