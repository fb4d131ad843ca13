-- ===== src/Ingest/Batches.antt =====
-- The loop over the candidates of a turn keeps every reference within the scope of the turn.
use mathlib.Core.List.{map-append}
use higgsfield_memory_servic.Prelude.{
  ℕ, ◌+◌, Bool, true, false, ◌≡◌, refl, ◌∙◌, sym, subst, Option, none, some, List, [], ◌∷◌, ◌++◌,
  arith, nat_eq, if◌then◌else◌, All, All-mono, All-append,
}
use higgsfield_memory_servic.Numbers.{Floats}
use higgsfield_memory_servic.Text.{Text}
use higgsfield_memory_servic.Datetime.{Datetime}
use higgsfield_memory_servic.Dict.{lookup}
use higgsfield_memory_servic.Models.{MemoryCandidate}
use higgsfield_memory_servic.Store.{Scope, Memory, Db}
use higgsfield_memory_servic.Store.Scopes.{
  turn_scopes, memory_scopes, RefersTo, Extends, Extends-append, lookup-none_of_Below,
  lookup-append_fresh,
}
use higgsfield_memory_servic.Store.Sound.{IsSound}
use higgsfield_memory_servic.Store.Sound.Inserts.{draw-IsSound, add_memory-IsSound}
use higgsfield_memory_servic.MemoryRepo.{Scan, kept_memory, insert_memory}
use higgsfield_memory_servic.Reconciler.{ReconcileDecision, reconcile, apply_decision}
use higgsfield_memory_servic.Ingest.Isolation.{
  In, IsSame, apply_decision-IsSame, supersedes-RefersTo, link_entities-IsSame,
}
use higgsfield_memory_servic.Ingest.{
  Batch, count_superseded, new_row, store_candidate, ingest_candidate, ingest_candidates,
}

module _ {F : Type 0} (fl : Floats F) (now : Datetime) (scope : Scope) (session_id : Text)
    (turn_id : ℕ) where
  -- What the loop keeps: sound tables, the turn in its scope, and the new memories in the scope.
  pub record IsBatch (b : Batch F) : Type 0 where
    pub sound : IsSound b.db
    pub turn : lookup turn_id (turn_scopes b.db.turns) ≡ some scope
    pub inserted : All (λ x. In scope b.db x.0) b.inserted

  module _ (cand : MemoryCandidate F) (vec : Option (List F)) (d : ReconcileDecision) (db : Db F)
      (h : IsSound db) where
    abbrev row : Memory F
    row = new_row now scope session_id turn_id cand vec d db.supply

    abbrev with_row : Db F
    with_row = insert_memory fl row (record db { supply = db.supply + 1 })

    unused : lookup db.supply (memory_scopes db.memories) ≡ none
    unused =
        lookup-none_of_Below db.supply db.supply (memory_scopes db.memories) h.memories_below
          (omega arith)

    scopes_with_row :
        memory_scopes with_row.memories ≡ memory_scopes db.memories ++ (db.supply, scope) ∷ []
    unfolding insert_memory
    scopes_with_row = map-append _ db.memories (kept_memory fl row ∷ [])

    row-In : In scope with_row db.supply
    row-In =
        subst (λ x. lookup db.supply x ≡ some scope) (sym scopes_with_row)
          (lookup-append_fresh (memory_scopes db.memories) db.supply scope unused)

    with_row-Extends : Extends (memory_scopes db.memories) (memory_scopes with_row.memories)
    with_row-Extends =
        subst (Extends (memory_scopes db.memories)) (sym scopes_with_row)
          (Extends-append (memory_scopes db.memories) _)

    with_row-turns : with_row.turns ≡ db.turns
    unfolding insert_memory
    with_row-turns = refl

    module _ (prior : RefersTo (memory_scopes db.memories) d.supersedes scope)
        (turn : lookup turn_id (turn_scopes db.turns) ≡ some scope) where
      with_row-IsSound : IsSound with_row
      with_row-IsSound =
          add_memory-IsSound (record db { supply = db.supply + 1 }) (draw-IsSound db h) fl row
            (omega arith) unused record { prior = prior; source = turn }

      store_candidate-IsSame :
          IsSame with_row (store_candidate fl now scope session_id turn_id cand vec d db)
      unfolding store_candidate
      store_candidate-IsSame =
          link_entities-IsSame scope db.supply cand.entities with_row with_row-IsSound row-In

  pub ingest_candidate-IsBatch :
      (sc : Scan (Memory F)) (cand : MemoryCandidate F) (vec : Option (List F)) (b : Batch F)
      → IsBatch b
      → IsBatch (ingest_candidate fl now scope session_id turn_id sc cand vec b)
  unfolding ingest_candidate
  ingest_candidate-IsBatch sc cand vec b h = by_insert d.insert
    where
      d : ReconcileDecision
      d = reconcile sc scope cand b.db

      applied : Db F
      applied = apply_decision d b.db

      same : IsSame b.db applied
      same = apply_decision-IsSame d b.db h.sound

      carried : All (λ x. In scope applied x.0) b.inserted
      carried =
          subst (λ e. All (λ x. lookup x.0 e ≡ some scope) b.inserted) (sym same.memories)
            h.inserted

      turn : lookup turn_id (turn_scopes applied.turns) ≡ some scope
      turn = subst (λ t. lookup turn_id (turn_scopes t) ≡ some scope) (sym same.turns) h.turn

      stored :
          IsSame
            (with_row cand vec d applied same.sound)
            (store_candidate fl now scope session_id turn_id cand vec d applied)
      stored =
          store_candidate-IsSame cand vec d applied same.sound
            (subst (λ e. RefersTo e d.supersedes scope) (sym same.memories)
              (supersedes-RefersTo sc scope cand b.db h.sound))
            turn

      next : Db F
      next = store_candidate fl now scope session_id turn_id cand vec d applied

      more : Extends (memory_scopes applied.memories) (memory_scopes next.memories)
      more =
          subst (Extends (memory_scopes applied.memories)) (sym stored.memories)
            (with_row-Extends cand vec d applied same.sound)

      grown : Batch F
      grown = record {
        db = next;
        inserted = b.inserted ++ (applied.supply, cand.subject) ∷ [];
        superseded_memories = count_superseded d.supersedes b.superseded_memories;
      }

      grown-IsBatch : IsBatch grown
      grown-IsBatch = record {
        sound = stored.sound;
        turn =
            subst (λ t. lookup turn_id (turn_scopes t) ≡ some scope)
              (sym (stored.turns ∙ with_row-turns cand vec d applied same.sound)) turn;
        inserted =
            All-append (λ x. In scope next x.0) b.inserted (_ ∷ [])
              (All-mono _ _ (λ x. more x.0 scope) b.inserted carried)
              (
                subst (λ e. lookup applied.supply e ≡ some scope) (sym stored.memories)
                    (row-In cand vec d applied same.sound),
                tt,
              );
      }

      by_insert : (i : Bool) → IsBatch (if i then grown else record b { db = applied })
      by_insert true = grown-IsBatch
      by_insert false = record { sound = same.sound; turn = turn; inserted = carried }

  pub ingest_candidates-IsBatch :
      (sc : Scan (Memory F)) (rest : List (MemoryCandidate F × Option (List F))) (b : Batch F)
      → IsBatch b
      → IsBatch (ingest_candidates fl now scope session_id turn_id sc rest b)
  unfolding ingest_candidates
  ingest_candidates-IsBatch sc [] b h = h
  ingest_candidates-IsBatch sc ((cand, vec) ∷ rest) b h =
      ingest_candidates-IsBatch sc rest _ (ingest_candidate-IsBatch sc cand vec b h)
