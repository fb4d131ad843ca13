-- ===== src/Store/Sound/Inserts.antt =====
-- The insertions keep the tables sound.
use mathlib.Core.List.{map-append}
use higgsfield_memory_servic.Prelude.{
  ℕ, ◌+◌, ◌<◌, ◌≤◌, String, Bool, true, false, ◌≡◌, refl, sym, subst, Option, none, some, List, [],
  ◌∷◌, ◌++◌, map, arith, ◌==◌, nat_eq, if◌then◌else◌, any, All, All-mono, All-append, Option-cases,
  inl, inr, find, All-find,
}
use higgsfield_memory_servic.Numbers.{Floats}
use higgsfield_memory_servic.Text.{Text}
use higgsfield_memory_servic.Dict.{NodupKeys, lookup}
use higgsfield_memory_servic.Store.{Scope, Turn, Memory, Entity, Db, scope_eq}
use higgsfield_memory_servic.Store.Scopes.{
  Scopes, turn_scopes, memory_scopes, entity_scopes, Extends, Extends-append, Linked, Linked-mono,
  RefersTo-mono, Below, lookup-append_fresh, lookup-none_of_Below, NodupKeys-append, All-lookup,
}
use higgsfield_memory_servic.Store.Sound.{IsPlaced, IsSound}
use higgsfield_memory_servic.MemoryRepo.{
  kept_memory, insert_memory, upsert_entity, upserted, renamed, same_entity, link_mention,
  insert_edge,
}

refl-le : (n : ℕ) → n ≤ n
refl-le n = omega arith

lt-add-one : (n : ℕ) → n < n + 1
lt-add-one n = omega arith

Extends-refl : (d : Scopes) → Extends d d
Extends-refl d k s h = h

Below-mono : (m n : ℕ) (d : Scopes) → m ≤ n → Below m d → Below n d
Below-mono m n d le = All-mono (λ x. x.0 < m) (λ x. x.0 < n) (λ x h. omega arith) d

Below-append : (n k : ℕ) (d : Scopes) (s : Scope) → k < n → Below n d → Below n (d ++ (k, s) ∷ [])
Below-append n k d s lt h = All-append (λ x. x.0 < n) d ((k, s) ∷ []) h (lt, tt)

module _ {F : Type 0} (db : Db F) (h : IsSound db) where
  open h use {
    turn_ids, memory_ids, entity_ids, turns_below, memories_below, entities_below, rows, mentions,
    edges,
  }

  -- Drawing an identifier.
  pub draw-IsSound : IsSound (record db { supply = db.supply + 1 })
  draw-IsSound = record {
    turn_ids = turn_ids;
    memory_ids = memory_ids;
    entity_ids = entity_ids;
    turns_below = Below-mono db.supply (db.supply + 1) _ (omega arith) turns_below;
    memories_below = Below-mono db.supply (db.supply + 1) _ (omega arith) memories_below;
    entities_below = Below-mono db.supply (db.supply + 1) _ (omega arith) entities_below;
    rows = rows;
    mentions = mentions;
    edges = edges;
  }

  IsPlaced-mono :
      (t t' d d' : Scopes) (m : Memory F)
      → Extends t t'
      → Extends d d'
      → IsPlaced t d m
      → IsPlaced t' d' m
  IsPlaced-mono t t' d d' m et ed p = record {
    prior = RefersTo-mono d d' m.supersedes m.scope ed p.prior;
    source = RefersTo-mono t t' m.source_turn m.scope et p.source;
  }

  -- A turn with an unused identifier.
  pub add_turn-IsSound :
      (turn : Turn F)
      → turn.id < db.supply
      → lookup turn.id (turn_scopes db.turns) ≡ none
      → IsSound (record db { turns = db.turns ++ turn ∷ [] })
  add_turn-IsSound turn lt fresh =
      let t = turn_scopes db.turns in
      let d = memory_scopes db.memories in
      let same : t ++ (turn.id, turn.scope) ∷ [] ≡ turn_scopes (db.turns ++ turn ∷ []) =
        sym (map-append _ db.turns (turn ∷ [])) in
      record {
        turn_ids = subst NodupKeys same (NodupKeys-append t turn.id turn.scope turn_ids fresh);
        memory_ids = memory_ids;
        entity_ids = entity_ids;
        turns_below =
            subst (Below db.supply) same
              (Below-append db.supply turn.id t turn.scope lt turns_below);
        memories_below = memories_below;
        entities_below = entities_below;
        rows =
            subst (λ x. All (IsPlaced x d) db.memories) same
              (All-mono _ _
                (λ m.
                  IsPlaced-mono t (t ++ (turn.id, turn.scope) ∷ []) d d m (Extends-append t _)
                    (Extends-refl d))
                db.memories rows);
        mentions = mentions;
        edges = edges;
      }

  -- A memory with an unused identifier, whose references are in order.
  pub add_memory-IsSound :
      (fl : Floats F) (m : Memory F)
      → m.id < db.supply
      → lookup m.id (memory_scopes db.memories) ≡ none
      → IsPlaced (turn_scopes db.turns) (memory_scopes db.memories) m
      → IsSound (insert_memory fl m db)
  unfolding insert_memory
  add_memory-IsSound fl m lt fresh placed =
      let t = turn_scopes db.turns in
      let d = memory_scopes db.memories in
      let e = entity_scopes db.entities in
      let d' = d ++ (m.id, m.scope) ∷ [] in
      let same : d' ≡ memory_scopes (db.memories ++ kept_memory fl m ∷ []) =
        sym (map-append _ db.memories (kept_memory fl m ∷ [])) in
      let more : Extends d d' = Extends-append d _ in
      let moved = IsPlaced-mono t t d d' m (Extends-refl t) more placed in
      record {
        turn_ids = turn_ids;
        memory_ids = subst NodupKeys same (NodupKeys-append d m.id m.scope memory_ids fresh);
        entity_ids = entity_ids;
        turns_below = turns_below;
        memories_below =
            subst (Below db.supply) same (Below-append db.supply m.id d m.scope lt memories_below);
        entities_below = entities_below;
        rows =
            subst (λ x. All (IsPlaced t x) (db.memories ++ kept_memory fl m ∷ [])) same
              (All-append (IsPlaced t d') db.memories (kept_memory fl m ∷ [])
                (All-mono _ _ (λ r. IsPlaced-mono t t d d' r (Extends-refl t) more) db.memories
                  rows)
                (record { prior = moved.prior; source = moved.source }, tt));
        mentions =
            subst (λ x. All (λ n. Linked x e n.memory_id n.entity_id) db.mentions) same
              (All-mono _ _ (λ n. Linked-mono n.memory_id n.entity_id more (Extends-refl e))
                db.mentions mentions);
        edges =
            subst (λ x. All (λ g. Linked x x g.src g.dst) db.edges) same
              (All-mono _ _ (λ g. Linked-mono g.src g.dst more more) db.edges edges);
      }

  -- An edge between memories of one scope.
  pub insert_edge-IsSound :
      (fl : Floats F) (src dst : ℕ) (relation : String) (weight : F)
      → Linked (memory_scopes db.memories) (memory_scopes db.memories) src dst
      → IsSound (insert_edge fl src dst relation weight db)
  unfolding insert_edge
  insert_edge-IsSound fl src dst relation weight l =
      skip_or (src == dst) (skip_or (any _ db.edges) added)
    where
      added : IsSound (record db {
        edges =
            db.edges
            ++ (record { src = src; dst = dst; relation = relation; weight = fl.real weight }) ∷ [];
      })
      added = record {
        turn_ids = turn_ids;
        memory_ids = memory_ids;
        entity_ids = entity_ids;
        turns_below = turns_below;
        memories_below = memories_below;
        entities_below = entities_below;
        rows = rows;
        mentions = mentions;
        edges = All-append _ db.edges (_ ∷ []) edges (l, tt);
      }

      skip_or : {e : Db F} (b : Bool) → IsSound e → IsSound (if b then db else e)
      skip_or true he = h
      skip_or false he = he

  -- A mention of an entity by a memory of its scope.
  pub link_mention-IsSound :
      (memory_id entity_id : ℕ)
      → Linked (memory_scopes db.memories) (entity_scopes db.entities) memory_id entity_id
      → IsSound (link_mention memory_id entity_id db)
  unfolding link_mention
  link_mention-IsSound memory_id entity_id l = skip_or (any _ db.mentions)
    where
      added : IsSound (record db {
        mentions = db.mentions ++ (record { memory_id = memory_id; entity_id = entity_id }) ∷ [];
      })
      added = record {
        turn_ids = turn_ids;
        memory_ids = memory_ids;
        entity_ids = entity_ids;
        turns_below = turns_below;
        memories_below = memories_below;
        entities_below = entities_below;
        rows = rows;
        mentions = All-append _ db.mentions (_ ∷ []) mentions (l, tt);
        edges = edges;
      }

      skip_or :
          (b : Bool)
          → IsSound (
              if b then db else record db {
                mentions =
                    db.mentions ++ (record { memory_id = memory_id; entity_id = entity_id }) ∷ [];
              })
      skip_or true = h
      skip_or false = added

-- What `upsert_entity` hands on: sound tables with the same memories and turns, in which the
-- returned entity is of the scope.
pub record Upserted {F : Type 0} (db : Db F) (scope : Scope) (eid : ℕ) (next : Db F) : Type 0 where
  pub sound : IsSound next
  pub memories : next.memories ≡ db.memories
  pub turns : next.turns ≡ db.turns
  pub found : lookup eid (entity_scopes next.entities) ≡ some scope

module _ (scope : Scope) (name : Text) (type : Option Text) where
  entity_scopes-renamed :
      (es : List Entity) → entity_scopes (map (renamed scope name type) es) ≡ entity_scopes es
  entity_scopes-renamed [] = refl
  entity_scopes-renamed (e ∷ es) = cc (same e, entity_scopes-renamed es)
    where
      same :
          (e : Entity)
          → ◌≡◌ {A = ℕ × Scope}
              ((renamed scope name type e).id, (renamed scope name type e).scope)
              (e.id, e.scope)
      same e = ground arith

  module _ {F : Type 0} (db : Db F) (h : IsSound db) where
    rename-Upserted :
        (e : Entity)
        → find (same_entity scope name type) db.entities ≡ some e
        → Upserted db scope e.id (upserted scope name type db (some e)).1
    rename-Upserted e eq =
        let same = sym (entity_scopes-renamed db.entities) in
        let d = draw-IsSound db h in
        record {
          sound = record {
            turn_ids = d.turn_ids;
            memory_ids = d.memory_ids;
            entity_ids = subst NodupKeys same d.entity_ids;
            turns_below = d.turns_below;
            memories_below = d.memories_below;
            entities_below = subst (Below (db.supply + 1)) same d.entities_below;
            rows = d.rows;
            mentions =
                subst
                  (λ x.
                    All (λ n. Linked (memory_scopes db.memories) x n.memory_id n.entity_id)
                      db.mentions)
                  same d.mentions;
            edges = d.edges;
          };
          memories = refl;
          turns = refl;
          found = subst (λ x. lookup e.id x ≡ some scope) same at_scope;
        }
      where
        listed :
            (es : List Entity)
            → All (λ x. lookup x.0 (entity_scopes db.entities) ≡ some x.1) (entity_scopes es)
            → All (λ (x : Entity). lookup x.id (entity_scopes db.entities) ≡ some x.scope) es
        listed [] a = tt
        listed (x ∷ es) a = (a.0, listed es a.1)

        at_scope : lookup e.id (entity_scopes db.entities) ≡ some scope
        at_scope =
            let (own, test) =
              All-find (λ (x : Entity). lookup x.id (entity_scopes db.entities) ≡ some x.scope)
                (same_entity scope name type) db.entities e
                (listed db.entities (All-lookup (entity_scopes db.entities) h.entity_ids)) eq in
            ground (arith, own, test)

    add-Upserted : Upserted db scope db.supply (upserted scope name type db none).1
    add-Upserted =
        let e = entity_scopes db.entities in
        let m = memory_scopes db.memories in
        let d = draw-IsSound db h in
        let fresh =
          lookup-none_of_Below db.supply db.supply e h.entities_below (refl-le db.supply) in
        let same = sym (
          map-append (λ (x : Entity). (x.id, x.scope)) db.entities
            (record { id = db.supply; scope = scope; name = name; type = type } ∷ [])) in
        record {
          sound = record {
            turn_ids = d.turn_ids;
            memory_ids = d.memory_ids;
            entity_ids =
                subst NodupKeys same (NodupKeys-append e db.supply scope h.entity_ids fresh);
            turns_below = d.turns_below;
            memories_below = d.memories_below;
            entities_below = subst (Below (db.supply + 1)) same (
                Below-append (db.supply + 1) db.supply e scope (lt-add-one db.supply)
                  d.entities_below);
            rows = d.rows;
            mentions =
                subst (λ x. All (λ n. Linked m x n.memory_id n.entity_id) db.mentions) same
                  (All-mono _ _
                    (λ n.
                      Linked-mono n.memory_id n.entity_id (Extends-refl m)
                        (Extends-append e ((db.supply, scope) ∷ [])))
                    db.mentions h.mentions);
            edges = d.edges;
          };
          memories = refl;
          turns = refl;
          found =
              subst (λ x. lookup db.supply x ≡ some scope) same
                (lookup-append_fresh e db.supply scope fresh);
        }

    abbrev After : Option Entity → Type 0
    After o = Upserted db scope (upserted scope name type db o).0 (upserted scope name type db o).1

    pub upsert_entity-Upserted :
        Upserted db scope (upsert_entity scope name type db).0 (upsert_entity scope name type db).1
    unfolding upsert_entity
    upsert_entity-Upserted = elim (Option-cases (find (same_entity scope name type) db.entities)) [
      | inl none_found ↦ subst After (sym none_found) add-Upserted
      | inr hit ↦ subst After (sym hit.1) (rename-Upserted hit.0 hit.1)
    ]
