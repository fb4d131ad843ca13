-- ===== src/Ingest/Isolation.antt =====
-- POST /turns keeps every reference within one scope.
use higgsfield_memory_servic.Prelude.{
  ℕ, Bool, true, false, ◌&&◌, ◌≡◌, refl, ◌∙◌, sym, ap, subst, some, List, [], ◌∷◌, arith, ◌==◌,
  nat_eq, if◌then◌else◌, any, All,
}
use higgsfield_memory_servic.Text.{Text, is_empty}
use higgsfield_memory_servic.Dict.{lookup}
use higgsfield_memory_servic.Models.{EntityMention, MemoryCandidate, key}
use higgsfield_memory_servic.Store.{Scope, Memory, Db, scope_eq}
use higgsfield_memory_servic.Store.Scopes.{
  Scopes, memory_scopes, entity_scopes, Linked, RefersTo, All-lookup,
}
use higgsfield_memory_servic.Store.Sound.{IsSound, IsUpdate, update-IsSound, memory_scopes_update}
use higgsfield_memory_servic.Store.Sound.Inserts.{link_mention-IsSound, upsert_entity-Upserted}
use higgsfield_memory_servic.MemoryRepo.{Scan, upsert_entity, link_mention, deactivated, deactivate}
use higgsfield_memory_servic.Reconciler.{ReconcileDecision, reconcile, apply_decision}
use higgsfield_memory_servic.Reconciler.Decisions.{reconcile_lem, is_current, head_of}
use higgsfield_memory_servic.Ingest.Current.{link_mention-memories}
use higgsfield_memory_servic.Ingest.{link_entities}

-- The identifier is that of a row of the scope.
abbrev pub In : {F : Type 0} → Scope → Db F → ℕ → Type 0
In scope db id = lookup id (memory_scopes db.memories) ≡ some scope

-- Sound tables, and what they share with the ones before: the turns and the rows of memories.
pub record IsSame {F : Type 0} (db next : Db F) : Type 0 where
  pub sound : IsSound next
  pub memories : memory_scopes next.memories ≡ memory_scopes db.memories
  pub turns : next.turns ≡ db.turns

module _ {F : Type 0} where
  pub IsSame-trans : (a b c : Db F) → IsSame a b → IsSame b c → IsSame a c
  IsSame-trans a b c p q = record {
    sound = q.sound;
    memories = q.memories ∙ p.memories;
    turns = q.turns ∙ p.turns;
  }

  deactivated-IsUpdate : (gone : List ℕ) → IsUpdate {F = F} (deactivated gone)
  deactivated-IsUpdate gone = record {
    id = λ m. ground arith;
    scope = λ m. ground arith;
    supersedes = λ m. ground arith;
    source_turn = λ m. ground arith;
  }

  pub apply_decision-IsSame :
      (d : ReconcileDecision) (db : Db F) → IsSound db → IsSame db (apply_decision d db)
  unfolding apply_decision deactivate
  apply_decision-IsSame d db h = by_ids (is_empty d.deactivate_ids)
    where
      by_ids : (b : Bool) → IsSame db (if b then db else deactivate d.deactivate_ids db)
      by_ids true = record { sound = h; memories = refl; turns = refl }
      by_ids false = record {
        sound =
            update-IsSound (deactivated d.deactivate_ids) (deactivated-IsUpdate d.deactivate_ids) db
              h;
        memories =
            memory_scopes_update (deactivated d.deactivate_ids)
              (deactivated-IsUpdate d.deactivate_ids) db.memories;
        turns = refl;
      }

  -- A current row of the scope is of the scope.
  pub any-In :
      (scope : Scope) (k : Text) (i : ℕ) (d : Scopes) (ms : List (Memory F))
      → All (λ x. lookup x.0 d ≡ some x.1) (memory_scopes ms)
      → any (λ m. is_current scope k m && m.id == i) ms ≡ true
      → lookup i d ≡ some scope
  any-In scope k i d [] a h = cc
  any-In scope k i d (m ∷ ms) a h = ground (arith, a.0, any-In scope k i d ms a.1)

  pub supersedes-RefersTo :
      (sc : Scan (Memory F)) (scope : Scope) (cand : MemoryCandidate F) (db : Db F)
      → IsSound db
      → RefersTo (memory_scopes db.memories) (reconcile sc scope cand db).supersedes scope
  supersedes-RefersTo sc scope cand db h =
      let r = reconcile_lem sc scope cand db in
      let d = memory_scopes db.memories in
      subst (λ o. RefersTo d o scope) (sym r.prior) (first _ r.own)
    where
      first :
          (l : List ℕ)
          → All (λ i. any (λ m. is_current scope (key cand) m && m.id == i) db.memories ≡ true) l
          → RefersTo (memory_scopes db.memories) (head_of l) scope
      first [] own = tt
      first (i ∷ l) own =
          any-In scope (key cand) i (memory_scopes db.memories) db.memories
            (All-lookup (memory_scopes db.memories) h.memory_ids) own.0

  pub link_mention-turns :
      (memory_id entity_id : ℕ) (db : Db F) → (link_mention memory_id entity_id db).turns ≡ db.turns
  unfolding link_mention
  link_mention-turns memory_id entity_id db = ground arith

  link_mention-IsSame :
      (memory_id entity_id : ℕ) (db : Db F)
      → IsSound db
      → Linked (memory_scopes db.memories) (entity_scopes db.entities) memory_id entity_id
      → IsSame db (link_mention memory_id entity_id db)
  link_mention-IsSame memory_id entity_id db h l = record {
    sound = link_mention-IsSound db h memory_id entity_id l;
    memories = ap memory_scopes (link_mention-memories memory_id entity_id db);
    turns = link_mention-turns memory_id entity_id db;
  }

  pub link_entities-IsSame :
      (scope : Scope) (mem_id : ℕ) (es : List EntityMention) (db : Db F)
      → IsSound db
      → In scope db mem_id
      → IsSame db (link_entities scope mem_id es db)
  unfolding link_entities
  link_entities-IsSame scope mem_id [] db h at = record { sound = h; memories = refl; turns = refl }
  link_entities-IsSame scope mem_id (e ∷ es) db h at =
      let mine = one_step (is_empty e.name) in
      IsSame-trans db _ _ mine (
        link_entities-IsSame scope mem_id es _ mine.sound
          (subst (λ d. lookup mem_id d ≡ some scope) (sym mine.memories) at))
    where
      linked : IsSame db (
          link_mention mem_id
            (upsert_entity scope e.name e.type db).0
            (upsert_entity scope e.name e.type db).1)
      linked =
          let u = upsert_entity-Upserted scope e.name e.type db h in
          let next = (upsert_entity scope e.name e.type db).1 in
          let up : IsSame db next = record {
            sound = u.sound;
            memories = ap memory_scopes u.memories;
            turns = u.turns;
          } in
          IsSame-trans db next _ up (
            link_mention-IsSame mem_id _ next u.sound record {
              scope = scope;
              left = subst (λ d. lookup mem_id d ≡ some scope) (sym up.memories) at;
              right = u.found;
            })

      one_step :
          (b : Bool)
          → IsSame db (
              if b
              then db
              else link_mention mem_id
                  (upsert_entity scope e.name e.type db).0
                  (upsert_entity scope e.name e.type db).1)
      one_step true = record { sound = h; memories = refl; turns = refl }
      one_step false = linked
