-- ===== src/Store/Sound.antt =====
-- Tables in which every reference leads to a row of the same scope, and the statements that keep
-- them so.
pub mod Inserts
pub mod Deletes
pub mod Rows
use higgsfield_memory_servic.Prelude.{
  ℕ, suc, ◌+◌, ◌<◌, ◌≤◌, Bool, true, false, not, ◌≡◌, refl, ◌∙◌, sym, ap, subst, subst₂, Option,
  none, some, List, [], ◌∷◌, ◌++◌, map, arith, if◌then◌else◌, All, All-mono, All-map, nat_eq,
}
use higgsfield_memory_servic.Dict.{NodupKeys}
use higgsfield_memory_servic.Store.{Scope, Memory, Db}
use higgsfield_memory_servic.Store.Scopes.{
  Scopes, turn_scopes, memory_scopes, entity_scopes, Linked, RefersTo, Below,
}

-- The row's references lead to rows of its scope.
pub record IsPlaced {F : Type 0} (turns memories : Scopes) (m : Memory F) : Type 0 where
  pub prior : RefersTo memories m.supersedes m.scope
  pub source : RefersTo turns m.source_turn m.scope

pub record IsSound {F : Type 0} (db : Db F) : Type 0 where
  pub turn_ids : NodupKeys (turn_scopes db.turns)
  pub memory_ids : NodupKeys (memory_scopes db.memories)
  pub entity_ids : NodupKeys (entity_scopes db.entities)
  pub turns_below : Below db.supply (turn_scopes db.turns)
  pub memories_below : Below db.supply (memory_scopes db.memories)
  pub entities_below : Below db.supply (entity_scopes db.entities)
  pub rows : All (IsPlaced (turn_scopes db.turns) (memory_scopes db.memories)) db.memories
  pub mentions :
      All
        (λ n.
          Linked (memory_scopes db.memories) (entity_scopes db.entities) n.memory_id n.entity_id)
        db.mentions
  pub edges :
      All (λ e. Linked (memory_scopes db.memories) (memory_scopes db.memories) e.src e.dst) db.edges

-- An update that leaves alone what the references are about.
pub record IsUpdate {F : Type 0} (f : Memory F → Memory F) : Type 0 where
  pub id : (m : Memory F) → (f m).id ≡ m.id
  pub scope : (m : Memory F) → (f m).scope ≡ m.scope
  pub supersedes : (m : Memory F) → (f m).supersedes ≡ m.supersedes
  pub source_turn : (m : Memory F) → (f m).source_turn ≡ m.source_turn

module _ {F : Type 0} (f : Memory F → Memory F) (u : IsUpdate f) where
  pub memory_scopes_update : (ms : List (Memory F)) → memory_scopes (map f ms) ≡ memory_scopes ms
  memory_scopes_update [] = refl
  memory_scopes_update (m ∷ ms) = λ i. (u.id m i, u.scope m i) ∷ memory_scopes_update ms i

  IsPlaced-update : (t d : Scopes) (m : Memory F) → IsPlaced t d m → IsPlaced t d (f m)
  IsPlaced-update t d m p = record {
    prior = subst₂ (RefersTo d) (sym (u.supersedes m)) (sym (u.scope m)) p.prior;
    source = subst₂ (RefersTo t) (sym (u.source_turn m)) (sym (u.scope m)) p.source;
  }

  pub update-IsSound :
      (db : Db F) → IsSound db → IsSound (record db { memories = map f db.memories })
  update-IsSound db h =
      let same = sym (memory_scopes_update db.memories) in
      let t = turn_scopes db.turns in
      record {
        turn_ids = h.turn_ids;
        memory_ids = subst NodupKeys same h.memory_ids;
        entity_ids = h.entity_ids;
        turns_below = h.turns_below;
        memories_below = subst (Below db.supply) same h.memories_below;
        entities_below = h.entities_below;
        rows =
            subst (λ d. All (IsPlaced t d) (map f db.memories)) same
              (All-map (IsPlaced t (memory_scopes db.memories)) f db.memories (
                All-mono _ (λ m. IsPlaced t (memory_scopes db.memories) (f m))
                  (IsPlaced-update t (memory_scopes db.memories)) db.memories h.rows));
        mentions =
            subst
              (λ d.
                All (λ n. Linked d (entity_scopes db.entities) n.memory_id n.entity_id) db.mentions)
              same h.mentions;
        edges = subst (λ d. All (λ e. Linked d d e.src e.dst) db.edges) same h.edges;
      }
