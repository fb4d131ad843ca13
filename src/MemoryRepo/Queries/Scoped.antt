-- ===== src/MemoryRepo/Queries/Scoped.antt =====
-- The reads of the memories stay in the scope that they are asked for.
use higgsfield_memory_servic.Prelude.{
  ℕ, String, true, false, not, ◌&&◌, ◌≡◌, sym, ap, subst, ◌∙◌, some, List, [], ◌∷◌, arith, ◌==◌,
  nat_eq, string_eq, list_eq, Eq, eq_of_==, contains, All, All-mono, All-append, All-take, All-map,
  filter-All, All-if, All_of_map, Bool-cases, inl, inr,
}
use higgsfield_memory_servic.Text.{Text}
use higgsfield_memory_servic.Numbers.{Floats}
use higgsfield_memory_servic.Dict.{lookup}
use higgsfield_memory_servic.Sorting.{All-sort}
use higgsfield_memory_servic.Store.{Scope, Memory, Entity, Mention, Edge, Db, scope_eq}
use higgsfield_memory_servic.Store.Scopes.{
  Scopes, turn_scopes, memory_scopes, entity_scopes, Linked, RefersTo, All-lookup,
}
use higgsfield_memory_servic.Store.Sound.{IsSound}
use higgsfield_memory_servic.Store.Sound.Rows.{IsMemory, memories-IsMemory}
use higgsfield_memory_servic.MemoryRepo.{Scan}
use higgsfield_memory_servic.MemoryRepo.Scans.{
  IsWithin, memories-scan, memories-scan_all, memories-scan-IsWithin,
}
use higgsfield_memory_servic.MemoryRepo.Queries.{
  Reached, stable_fact, reached, entities_for_names, copies, mentions_of, join_mentions,
  first_of_each, more_stable, stable_row, list_stable_facts, surer, memories_mentioning_entities,
  edges_to, grouped, join_edges, closer, neighbour, memories_via_edges,
}

contains-All :
    {A : Type 0} ⦃e : Eq A⦄ (P : A → Type 0) (xs : List A) (a : A)
    → All P xs
    → contains xs a ≡ true
    → P a
contains-All P [] a h c = cc
contains-All P (x ∷ xs) a (hx, h) c = elim (Bool-cases (a == x)) [
  | inl here ↦ subst P (sym (eq_of_== a x here)) hx
  | inr later ↦ contains-All P xs a h (ground arith)
]

-- The row that a read returns is of the scope, and so is its source turn.
pub record IsReached {F : Type 0} (db : Db F) (scope : Scope) (r : Reached F) : Type 0 where
  pub place : lookup r.id (memory_scopes db.memories) ≡ some scope
  pub source : RefersTo (turn_scopes db.turns) r.source_turn scope

module _ {F : Type 0} (db : Db F) (scope : Scope) where
  reached-IsReached : (m : Memory F) → IsWithin db scope m → IsReached db scope (reached db m)
  unfolding reached
  reached-IsReached m h = record {
    place = h.row.own ∙ ap some h.within;
    source = subst (RefersTo (turn_scopes db.turns) m.source_turn) h.within h.row.source;
  }

  -- Two identifiers that are linked are of one scope.
  Linked-scope :
      (d e : Scopes) (a b : ℕ) (s : Scope)
      → Linked d e a b
      → lookup a d ≡ some s
      → lookup b e ≡ some scope
      → s ≡ scope
  Linked-scope d e a b s l ha hb = ground (arith, l.left, l.right, ha, hb)

  abbrev Mine : Scopes → ℕ → Type 0
  Mine d k = lookup k d ≡ some scope

  All-copies :
      (P : Memory F → Type 0) (m : Memory F) (ns : List Mention)
      → All (λ n. P m) ns
      → All P (copies m ns)
  All-copies P m [] h = tt
  All-copies P m (n ∷ ns) (hn, h) = (hn, All-copies P m ns h)

  module _ (ids : List ℕ) (mine : All (Mine (entity_scopes db.entities)) ids) where
    mentioned-IsWithin :
        (m : Memory F) (n : Mention)
        → IsMemory db m
        → n.memory_id == m.id && contains ids n.entity_id ≡ true
        → Linked (memory_scopes db.memories) (entity_scopes db.entities) n.memory_id n.entity_id
        → IsWithin db scope m
    mentioned-IsWithin m n row hit l = record {
      row = row;
      within =
          Linked-scope (memory_scopes db.memories) (entity_scopes db.entities) n.memory_id
            n.entity_id m.scope l
            (ap (λ k. lookup k (memory_scopes db.memories))
                (eq_of_== n.memory_id m.id (ground arith))
              ∙ row.own)
            (contains-All (Mine (entity_scopes db.entities)) ids n.entity_id mine (ground arith));
    }

    join_mentions-IsWithin :
        IsSound db
        → (ms : List (Memory F)) → All (IsMemory db) ms
        → All (IsWithin db scope) (join_mentions ids db.mentions ms)
    unfolding join_mentions
    join_mentions-IsWithin sound [] h = tt
    join_mentions-IsWithin sound (m ∷ ms) (row, h) =
        All-append (IsWithin db scope) (copies m (mentions_of ids db.mentions m)) _
          (All-copies (IsWithin db scope) m (mentions_of ids db.mentions m) (
            filter-All _ (λ n. IsWithin db scope m)
              (λ n. n.memory_id == m.id && contains ids n.entity_id)
              (λ n hit l. mentioned-IsWithin m n row hit l) db.mentions sound.mentions))
          (join_mentions-IsWithin sound ms h)

  first_of_each-All :
      (P : Memory F → Type 0) (seen : List ℕ) (ms : List (Memory F))
      → All P ms
      → All P (first_of_each seen ms)
  unfolding first_of_each
  first_of_each-All P seen [] h = tt
  first_of_each-All P seen (m ∷ ms) (hm, h) =
      elim (contains seen m.id)
        as (λ b. All P (elim b as (λ _. List (Memory F)) [
          | true ↦ first_of_each seen ms
          | false ↦ m ∷ first_of_each (m.id ∷ seen) ms
        ])) [
          | true ↦ first_of_each-All P seen ms h
          | false ↦ (hm, first_of_each-All P (m.id ∷ seen) ms h)
        ]

  module _ (fl : Floats F) (sc : Scan (Memory F)) where
    All-grouped :
        (P : Memory F → Type 0) (m : Memory F) (es : List (Edge F))
        → All (λ e. P m) es
        → All (λ g. P g.0) (grouped fl sc m es)
    All-grouped P m [] h = tt
    All-grouped P m (e ∷ es) h = (h.0, tt)

    module _ (seeds : List ℕ) (mine : All (Mine (memory_scopes db.memories)) seeds) where
      linked-IsWithin :
          (m : Memory F) (e : Edge F)
          → IsMemory db m
          → e.dst == m.id && contains seeds e.src ≡ true
          → Linked (memory_scopes db.memories) (memory_scopes db.memories) e.src e.dst
          → IsWithin db scope m
      linked-IsWithin m e row hit l = record {
        row = row;
        within = ground (
          arith,
          l.left,
          l.right,
          row.own,
          ap (λ k. lookup k (memory_scopes db.memories)) (eq_of_== e.dst m.id (ground arith)),
          contains-All (Mine (memory_scopes db.memories)) seeds e.src mine (ground arith),
        );
      }

      join_edges-IsWithin :
          IsSound db
          → (ms : List (Memory F)) → All (IsMemory db) ms
          → All (λ g. IsWithin db scope g.0) (join_edges fl sc seeds db.edges ms)
      unfolding join_edges
      join_edges-IsWithin sound [] h = tt
      join_edges-IsWithin sound (m ∷ ms) (row, h) =
          let P = λ (g : Memory F × F × List String). IsWithin db scope g.0 in
          All-append P _ (join_edges fl sc seeds db.edges ms)
            (All-if P (m.active && not (contains seeds m.id))
              (grouped fl sc m (edges_to fl sc seeds db.edges m)) []
              (All-grouped (IsWithin db scope) m (edges_to fl sc seeds db.edges m) (
                filter-All _ (λ e. IsWithin db scope m) (λ e. e.dst == m.id && contains seeds e.src)
                  (λ e hit l. linked-IsWithin m e row hit l) db.edges sound.edges))
              tt)
            (join_edges-IsWithin sound ms h)

module _ {F : Type 0} (fl : Floats F) (sc : Scan (Memory F)) (db : Db F) (sound : IsSound db)
    (scope : Scope) where
  -- The entities that names lead to are of the scope.
  pub entities_for_names-All :
      (names : List Text)
      → All
          (λ e. lookup e.id (entity_scopes db.entities) ≡ some scope)
          (entities_for_names scope names db)
  unfolding entities_for_names
  entities_for_names-All [] = tt
  entities_for_names-All (n ∷ names) =
      filter-All (λ e. lookup e.id (entity_scopes db.entities) ≡ some e.scope) _ _
        (λ e keep own. own ∙ ap some (eq_of_== e.scope scope (ground arith))) db.entities
        (All_of_map _ (λ (e : Entity). (e.id, e.scope)) db.entities
          (All-lookup (entity_scopes db.entities) sound.entity_ids))

  pub mentioning-All :
      (ids : List ℕ)
      → All (λ k. lookup k (entity_scopes db.entities) ≡ some scope) ids
      → (limit : ℕ) → All (IsReached db scope) (memories_mentioning_entities fl sc ids limit db)
  unfolding memories_mentioning_entities
  mentioning-All [] mine limit = tt
  mentioning-All (k ∷ ids) mine limit = All-map (IsReached db scope) (reached db) _ (
      All-mono (IsWithin db scope) _ (reached-IsReached db scope) _ (
        first_of_each-All db scope (IsWithin db scope) [] _ (
          All-take (IsWithin db scope) limit _ (
            All-sort (surer fl sc) (IsWithin db scope) _ (
              join_mentions-IsWithin db scope (k ∷ ids) mine sound _ (
                All-mono _ (IsMemory db) (λ m h. h.0) _
                  (memories-scan db sound sc (λ m. m.active) db.memories
                    (memories-IsMemory db sound))))))))

  pub via_edges-All :
      (seeds : List ℕ)
      → All (λ k. lookup k (memory_scopes db.memories) ≡ some scope) seeds
      → (limit : ℕ)
      → All (λ n. IsReached db scope n.memory) (memories_via_edges fl sc seeds limit db)
  unfolding memories_via_edges
  via_edges-All [] mine limit = tt
  via_edges-All (k ∷ seeds) mine limit =
      let P = λ (g : Memory F × F × List String). IsWithin db scope g.0 in
      All-map (λ n. IsReached db scope n.memory) (neighbour fl sc db) _
        (All-mono P _ (λ g. reached-IsReached db scope g.0) _
          (All-take P limit _ (
            All-sort (closer fl sc) P _ (
              join_edges-IsWithin db scope fl sc (k ∷ seeds) mine sound _
                (memories-scan_all db sound sc)))))

  -- A stable fact of the scope: its memory, and its source turn.
  pub stable_facts-All :
      (min_confidence : F) (limit : ℕ)
      → All
          (λ f.
            (lookup f.id (memory_scopes db.memories) ≡ some scope)
            × RefersTo (turn_scopes db.turns) f.source_turn scope)
          (list_stable_facts fl sc scope min_confidence limit db)
  unfolding list_stable_facts stable_fact
  stable_facts-All min_confidence limit = All-map _ (stable_fact db) _ (
      All-mono (IsWithin db scope) _
        (λ m h. (
          h.row.own ∙ ap some h.within,
          subst (RefersTo (turn_scopes db.turns) m.source_turn) h.within h.row.source,
        ))
        _
        (All-take (IsWithin db scope) limit _ (
          All-sort (more_stable fl sc) (IsWithin db scope) _ (
            memories-scan-IsWithin db sound sc (stable_row fl sc scope min_confidence) scope
              (λ m h. eq_of_== m.scope scope (ground arith)) db.memories
              (memories-IsMemory db sound)))))
