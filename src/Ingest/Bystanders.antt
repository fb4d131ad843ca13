-- ===== src/Ingest/Bystanders.antt =====
-- The transaction of POST /turns leaves the memories of other scopes as they are.
use higgsfield_memory_servic.Prelude.{
  ℕ, ◌+◌, Bool, true, false, ◌≡◌, ◌≢◌, refl, sym, ap, ◌∙◌, Option, some, List, [], ◌∷◌, ◌++◌, map,
  ◌==◌, nat_eq, if◌then◌else◌, filter, contains, All, All-mono, All_of_map, Bool-cases, inl, inr,
  eq_of_==,
}
use higgsfield_memory_servic.Text.{Text}
use higgsfield_memory_servic.Numbers.{Floats}
use higgsfield_memory_servic.Datetime.{Datetime}
use higgsfield_memory_servic.Dict.{lookup}
use higgsfield_memory_servic.Models.{MemoryCandidate, key}
use higgsfield_memory_servic.Store.{Scope, Memory, Db, scope_eq}
use higgsfield_memory_servic.Store.Scopes.{Scopes, memory_scopes, All-lookup}
use higgsfield_memory_servic.Store.Sound.{IsSound}
use higgsfield_memory_servic.TurnRepo.{TurnIn, scope_for, insert_turn}
use higgsfield_memory_servic.MemoryRepo.{Scan, kept_memory, deactivated}
use higgsfield_memory_servic.Reconciler.{reconcile, apply_decision}
use higgsfield_memory_servic.Reconciler.Decisions.{reconcile_lem, apply_decision-memories}
use higgsfield_memory_servic.Ingest.{
  Batch, new_row, ingest_candidate, ingest_candidates, ingest_turn,
}
use higgsfield_memory_servic.Ingest.Edges.{link_memories-HasRowsOf}
use higgsfield_memory_servic.Ingest.Current.{store_candidate-memories}
use higgsfield_memory_servic.Ingest.Isolation.{any-In}
use higgsfield_memory_servic.Ingest.Batches.{IsBatch, ingest_candidate-IsBatch}
use higgsfield_memory_servic.Ingest.Transaction.{insert_turn-IsSound}

-- The rows of a scope.
abbrev pub rows_of : {F : Type 0} → Scope → List (Memory F) → List (Memory F)
rows_of scope = filter (λ m. m.scope == scope)

module _ (scope other : Scope) (apart : scope ≢ other) where
  -- A row of another scope is none of those that a list of rows of the scope names.
  contains-other :
      (d : Scopes) (k : ℕ) (l : List ℕ)
      → All (λ i. lookup i d ≡ some scope) l
      → lookup k d ≡ some other
      → contains l k ≡ false
  contains-other d k [] own here = refl
  contains-other d k (i ∷ l) (mine, own) here = elim (Bool-cases (k == i)) [
    | inr ne ↦ rw ne (contains-other d k l own here)
    | inl same ↦ let same_key = eq_of_== k i same in absurd (apart cc)
  ]

module _ {F : Type 0} (scope other : Scope) (apart : scope ≢ other) where
  rows_of-deactivated :
      (gone : List ℕ) (ms : List (Memory F))
      → All (λ m. m.scope ≡ other → contains gone m.id ≡ false) ms
      → rows_of other (map (deactivated gone) ms) ≡ rows_of other ms
  rows_of-deactivated gone [] h = refl
  rows_of-deactivated gone (m ∷ ms) (stays, h) =
      let rest = rows_of-deactivated gone ms h in
      elim (Bool-cases (m.scope == other)) [
        | inl mine ↦ rw (stays (eq_of_== m.scope other mine)) (rw mine (ap (◌∷◌ m) rest))
        | inr foreign ↦ elim (Bool-cases (contains gone m.id)) [
          | inl old ↦ rw old (rw foreign rest)
          | inr kept ↦ rw kept (rw foreign rest)
        ]
      ]

  rows_of-append :
      (ms : List (Memory F)) (m : Memory F)
      → m.scope ≡ scope
      → rows_of other (ms ++ (m ∷ [])) ≡ rows_of other ms
  rows_of-append [] m here = elim (Bool-cases (m.scope == other)) [
    | inl mine ↦ absurd (apart (sym here ∙ eq_of_== m.scope other mine))
    | inr foreign ↦ rw foreign refl
  ]
  rows_of-append (x ∷ ms) m here = rw (rows_of-append ms m here) refl

  apply_decision-rows_of :
      (sc : Scan (Memory F)) (cand : MemoryCandidate F) (db : Db F)
      → IsSound db
      → rows_of other (apply_decision (reconcile sc scope cand db) db).memories
        ≡ rows_of other db.memories
  apply_decision-rows_of sc cand db h =
      let decision = reconcile sc scope cand db in
      let d = memory_scopes db.memories in
      let found = All-lookup d h.memory_ids in
      let own =
        All-mono _ _ (λ i. any-In scope (key cand) i d db.memories found) decision.deactivate_ids
          (reconcile_lem sc scope cand db).own in
      ap (rows_of other) (apply_decision-memories sc scope (key cand) decision db)
      ∙ rows_of-deactivated decision.deactivate_ids db.memories (
          All-mono _ _
            (λ m at here.
              contains-other scope other apart d m.id decision.deactivate_ids own
                (at ∙ ap some here))
            db.memories (All_of_map _ _ db.memories found))

  module _ (fl : Floats F) (now : Datetime) (session_id : Text) (turn_id : ℕ)
      (sc : Scan (Memory F)) where
    ingest_candidate-rows_of :
        (cand : MemoryCandidate F) (vec : Option (List F)) (b : Batch F)
        → IsSound b.db
        → rows_of other (ingest_candidate fl now scope session_id turn_id sc cand vec b).db.memories
          ≡ rows_of other b.db.memories
    unfolding ingest_candidate
    ingest_candidate-rows_of cand vec b h =
        let decision = reconcile sc scope cand b.db in
        let applied = apply_decision decision b.db in
        by_insert decision.insert _ _
          (ap (rows_of other)
              (store_candidate-memories fl now scope session_id turn_id cand vec decision applied)
            ∙ rows_of-append applied.memories
                (kept_memory fl
                  (new_row now scope session_id turn_id cand vec decision applied.supply))
                refl
            ∙ apply_decision-rows_of sc cand b.db h)
          (apply_decision-rows_of sc cand b.db h)
      where
        by_insert :
            (i : Bool) (x y : Batch F)
            → rows_of other x.db.memories ≡ rows_of other b.db.memories
            → rows_of other y.db.memories ≡ rows_of other b.db.memories
            → rows_of other (if i then x else y).db.memories ≡ rows_of other b.db.memories
        by_insert true x y p q = p
        by_insert false x y p q = q

    ingest_candidates-rows_of :
        (rest : List (MemoryCandidate F × Option (List F))) (b : Batch F)
        → IsBatch fl now scope session_id turn_id b
        → rows_of other (ingest_candidates fl now scope session_id turn_id sc rest b).db.memories
          ≡ rows_of other b.db.memories
    unfolding ingest_candidates
    ingest_candidates-rows_of [] b h = refl
    ingest_candidates-rows_of ((cand, vec) ∷ rest) b h =
        ingest_candidates-rows_of rest _
          (ingest_candidate-IsBatch fl now scope session_id turn_id sc cand vec b h)
        ∙ ingest_candidate-rows_of cand vec b h.sound

module _ {F : Type 0} (fl : Floats F) where
  pub ingest_turn-rows_of :
      (sc : Scan (Memory F)) (now : Datetime) (payload : TurnIn F) (embedding : Option (List F))
      (candidates : List (MemoryCandidate F × Option (List F))) (db : Db F)
      → IsSound db
      → (other : Scope) → scope_for payload.user_id payload.session_id ≢ other
      → rows_of other (ingest_turn fl sc now payload embedding candidates db).memories
        ≡ rows_of other db.memories
  unfolding ingest_turn insert_turn
  ingest_turn-rows_of sc now payload embedding candidates db h other apart =
      let scope = scope_for payload.user_id payload.session_id in
      let sound = insert_turn-IsSound fl payload embedding db h in
      let start : Batch F = record {
        db = insert_turn fl db.supply payload embedding (record db { supply = db.supply + 1 });
        inserted = [];
        superseded_memories = 0;
      } in
      let b = ingest_candidates fl now scope payload.session_id db.supply sc candidates start in
      ap (rows_of other) (link_memories-HasRowsOf fl scope b.inserted b.inserted b.db).memories
      ∙ ingest_candidates-rows_of scope other apart fl now payload.session_id db.supply sc
          candidates start record { sound = sound.0; turn = sound.1; inserted = tt }
