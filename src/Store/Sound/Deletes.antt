-- ===== src/Store/Sound/Deletes.antt =====
-- The deletions, with their cascades, keep the tables sound.
use higgsfield_memory_servic.Prelude.{
  ℕ, Bool, true, false, not, ◌||◌, ◌≡◌, refl, sym, ap, subst, Option, none, some, List, [], ◌∷◌,
  map, arith, ◌==◌, nat_eq, All, All-mono, All-map, filter, filter-All, contains, Bool-cases, inl,
  inr,
}
use higgsfield_memory_servic.Dict.{NodupKeys, lookup}
use higgsfield_memory_servic.Store.{Scope, Turn, Memory, Entity, Mention, Edge, Db, scope_eq}
use higgsfield_memory_servic.Store.Scopes.{
  Scopes, turn_scopes, memory_scopes, entity_scopes, Linked, RefersTo, Below,
}
use higgsfield_memory_servic.Store.Sound.{IsPlaced, IsSound}
use higgsfield_memory_servic.TurnRepo.{null_if_gone, delete_turns, forget_turns}
use higgsfield_memory_servic.MemoryRepo.{delete_memories, delete_entities, forget_priors}

module _ {A : Type 0} (id : A → ℕ) (scope : A → Scope) where
  abbrev scopes_of : List A → Scopes
  scopes_of = map (λ x. (id x, scope x))

  -- A row whose identifier is not that of a deleted row is still found.
  lookup-kept :
      (p : A → Bool) (k : ℕ) (s : Scope) (rows : List A)
      → contains (map id (filter p rows)) k ≡ false
      → lookup k (scopes_of rows) ≡ some s
      → lookup k (scopes_of (filter (λ x. not (p x)) rows)) ≡ some s
  unfolding lookup
  lookup-kept p k s [] h e = cc
  lookup-kept p k s (x ∷ rows) h e = ground (arith, lookup-kept p k s rows)

  lookup-none-filter :
      (q : A → Bool) (k : ℕ) (rows : List A)
      → lookup k (scopes_of rows) ≡ none
      → lookup k (scopes_of (filter q rows)) ≡ none
  unfolding lookup
  lookup-none-filter q k [] h = refl
  lookup-none-filter q k (x ∷ rows) h = ground (arith, lookup-none-filter q k rows)

  NodupKeys-filter :
      (q : A → Bool) (rows : List A)
      → NodupKeys (scopes_of rows)
      → NodupKeys (scopes_of (filter q rows))
  NodupKeys-filter q [] u = tt
  NodupKeys-filter q (x ∷ rows) (fresh, u) = elim (Bool-cases (q x)) [
    | inl keep ↦ rw keep (lookup-none-filter q (id x) rows fresh, NodupKeys-filter q rows u)
    | inr drop_it ↦ rw drop_it (NodupKeys-filter q rows u)
  ]

  Below-filter :
      (n : ℕ) (q : A → Bool) (rows : List A)
      → Below n (scopes_of rows)
      → Below n (scopes_of (filter q rows))
  Below-filter n q [] h = tt
  Below-filter n q (x ∷ rows) (lt, h) = elim (Bool-cases (q x)) [
    | inl keep ↦ rw keep (lt, Below-filter n q rows h)
    | inr drop_it ↦ rw drop_it (Below-filter n q rows h)
  ]

-- A nulled reference leads to a row, if the rows that are not gone are still found.
null_if_gone-RefersTo :
    (gone : List ℕ) (d e : Scopes) (o : Option ℕ) (s : Scope)
    → ((k : ℕ) → contains gone k ≡ false → lookup k d ≡ some s → lookup k e ≡ some s)
    → RefersTo d o s
    → RefersTo e (null_if_gone gone o) s
null_if_gone-RefersTo gone d e none s kept h = tt
null_if_gone-RefersTo gone d e (some k) s kept h = elim (Bool-cases (contains gone k)) [
  | inl old ↦ rw old tt
  | inr stays ↦ rw stays (kept k stays h)
]

unless : (b : Bool) → not b ≡ true → b ≡ false
unless true h = sym h
unless false h = refl

module _ {F : Type 0} (db : Db F) (h : IsSound db) where
  pub delete_turns-IsSound : (p : Turn F → Bool) → IsSound (delete_turns p db)
  unfolding delete_turns
  delete_turns-IsSound p =
      let gone = map (λ t. t.id) (filter p db.turns) in
      let t = turn_scopes db.turns in
      let t' = turn_scopes (filter (λ t. not (p t)) db.turns) in
      let d = memory_scopes db.memories in
      let same : d ≡ memory_scopes (map (forget_turns gone) db.memories) =
        sym (same_scopes gone db.memories) in
      record {
        turn_ids = NodupKeys-filter _ _ (λ t. not (p t)) db.turns h.turn_ids;
        memory_ids = subst NodupKeys same h.memory_ids;
        entity_ids = h.entity_ids;
        turns_below = Below-filter _ _ db.supply (λ t. not (p t)) db.turns h.turns_below;
        memories_below = subst (Below db.supply) same h.memories_below;
        entities_below = h.entities_below;
        rows =
            subst (λ x. All (IsPlaced t' x) (map (forget_turns gone) db.memories)) same
              (All-map (IsPlaced t' d) (forget_turns gone) db.memories (
                All-mono (IsPlaced t d) (λ m. IsPlaced t' d (forget_turns gone m))
                  (λ m r. record {
                    prior = r.prior;
                    source =
                        null_if_gone-RefersTo gone t t' m.source_turn m.scope
                          (λ k. lookup-kept (λ x. x.id) (λ x. x.scope) p k m.scope db.turns)
                          r.source;
                  })
                  db.memories h.rows));
        mentions =
            subst
              (λ x.
                All (λ n. Linked x (entity_scopes db.entities) n.memory_id n.entity_id) db.mentions)
              same h.mentions;
        edges = subst (λ x. All (λ e. Linked x x e.src e.dst) db.edges) same h.edges;
      }
    where
      same_scopes :
          (gone : List ℕ) (ms : List (Memory F))
          → memory_scopes (map (forget_turns gone) ms) ≡ memory_scopes ms
      same_scopes gone [] = refl
      same_scopes gone (m ∷ ms) = ap (◌∷◌ (m.id, m.scope)) (same_scopes gone ms)

  abbrev kept_rows : (Memory F → Bool) → List (Memory F)
  kept_rows p = filter (λ m. not (p m)) db.memories

  forgotten_scopes :
      (gone : List ℕ) (ms : List (Memory F))
      → memory_scopes ms ≡ memory_scopes (map (forget_priors gone) ms)
  forgotten_scopes gone [] = refl
  forgotten_scopes gone (m ∷ ms) = ap (◌∷◌ (m.id, m.scope)) (forgotten_scopes gone ms)

  -- A reference to a memory that is not deleted leads to a row after the deletion too.
  memory_kept :
      (p : Memory F → Bool) (k : ℕ) (s : Scope)
      → contains (map (λ m. m.id) (filter p db.memories)) k ≡ false
      → lookup k (memory_scopes db.memories) ≡ some s
      → lookup k (memory_scopes (kept_rows p)) ≡ some s
  memory_kept p k s = lookup-kept (λ m. m.id) (λ m. m.scope) p k s db.memories

  pub delete_memories-IsSound : (p : Memory F → Bool) → IsSound (delete_memories p db)
  unfolding delete_memories
  delete_memories-IsSound p =
      let gone = map (λ m. m.id) (filter p db.memories) in
      let d = memory_scopes db.memories in
      let kept = kept_rows p in
      let d' = memory_scopes kept in
      let t = turn_scopes db.turns in
      let e = entity_scopes db.entities in
      let same : d' ≡ memory_scopes (map (forget_priors gone) kept) = forgotten_scopes gone kept in
      record {
        turn_ids = h.turn_ids;
        memory_ids =
            subst NodupKeys same (NodupKeys-filter _ _ (λ m. not (p m)) db.memories h.memory_ids);
        entity_ids = h.entity_ids;
        turns_below = h.turns_below;
        memories_below =
            subst (Below db.supply) same
              (Below-filter _ _ db.supply (λ m. not (p m)) db.memories h.memories_below);
        entities_below = h.entities_below;
        rows =
            subst (λ x. All (IsPlaced t x) (map (forget_priors gone) kept)) same
              (All-map (IsPlaced t d') (forget_priors gone) kept (
                filter-All (IsPlaced t d) (λ m. IsPlaced t d' (forget_priors gone m))
                  (λ m. not (p m))
                  (λ m _ r. record {
                    prior =
                        null_if_gone-RefersTo gone d d' m.supersedes m.scope
                          (λ k. memory_kept p k m.scope) r.prior;
                    source = r.source;
                  })
                  db.memories h.rows));
        mentions =
            subst
              (λ x.
                All (λ (n : Mention). Linked x e n.memory_id n.entity_id)
                  (delete_memories p db).mentions)
              same
              (filter-All (λ n. Linked d e n.memory_id n.entity_id)
                (λ n. Linked d' e n.memory_id n.entity_id) (λ n. not (contains gone n.memory_id))
                (λ n stays l. record {
                  scope = l.scope;
                  left = memory_kept p n.memory_id l.scope (unless _ stays) l.left;
                  right = l.right;
                })
                db.mentions h.mentions);
        edges =
            subst (λ x. All (λ (g : Edge F). Linked x x g.src g.dst) (delete_memories p db).edges)
              same
              (filter-All (λ g. Linked d d g.src g.dst) (λ g. Linked d' d' g.src g.dst)
                (λ g. not (contains gone g.src || contains gone g.dst))
                (λ g stays l. record {
                  scope = l.scope;
                  left =
                      memory_kept p g.src l.scope (neither (contains gone g.src) _ stays).0 l.left;
                  right =
                      memory_kept p g.dst l.scope (neither (contains gone g.src) _ stays).1 l.right;
                })
                db.edges h.edges);
      }
    where
      neither : (a b : Bool) → not (a || b) ≡ true → (a ≡ false) × (b ≡ false)
      neither a b n = ground arith

  pub delete_entities-IsSound : (scope : Scope) → IsSound (delete_entities scope db)
  unfolding delete_entities
  delete_entities-IsSound scope =
      let p : Entity → Bool = λ e. e.scope == scope in
      let gone = map (λ (e : Entity). e.id) (filter p db.entities) in
      let d = memory_scopes db.memories in
      let e = entity_scopes db.entities in
      let e' = entity_scopes (filter (λ e. not (p e)) db.entities) in
      record {
        turn_ids = h.turn_ids;
        memory_ids = h.memory_ids;
        entity_ids = NodupKeys-filter _ _ (λ e. not (p e)) db.entities h.entity_ids;
        turns_below = h.turns_below;
        memories_below = h.memories_below;
        entities_below = Below-filter _ _ db.supply (λ e. not (p e)) db.entities h.entities_below;
        rows = h.rows;
        mentions =
            filter-All (λ n. Linked d e n.memory_id n.entity_id)
              (λ n. Linked d e' n.memory_id n.entity_id) (λ n. not (contains gone n.entity_id))
              (λ n stays l. record {
                scope = l.scope;
                left = l.left;
                right =
                    lookup-kept (λ (x : Entity). x.id) (λ x. x.scope) p n.entity_id l.scope
                      db.entities (unless _ stays) l.right;
              })
              db.mentions h.mentions;
        edges = h.edges;
      }
