-- ===== src/MemoryRepo.antt =====
-- The statements of src/memory_service/repo/memory_repo.py that write, and the small reads of
-- ingestion. What a statement leaves open, the order of equal rows, is the parameter `scan`.
pub mod Queries
pub mod Recompute
pub mod Scans
use higgsfield_memory_servic.Prelude.{
  ℕ, suc, ◌+◌, String, Bool, true, false, not, ◌&&◌, ◌||◌, Option, none, some, List, [], ◌∷◌, ◌++◌,
  map, ◌≡◌, ◌≤◌, ◌==◌, nat_eq, list_eq, option_eq, string_eq, pair_eq, ltb, if◌then◌else◌, filter,
  any, find, count, take, contains,
}
use higgsfield_memory_servic.Text.{Text, lower}
use higgsfield_memory_servic.Datetime.{Datetime, instant}
use higgsfield_memory_servic.Sorting.{sort}
use higgsfield_memory_servic.Numbers.{Floats}
use higgsfield_memory_servic.TurnRepo.{null_if_gone, vector_column}
use higgsfield_memory_servic.Store.{
  Scope, user, session, Memory, Entity, Mention, Edge, Db, row_key, scope_eq,
}

-- The order in which Postgres meets the rows of a table: any rearrangement, a new one each time.
pub record Scan (A : Type 0) : Type 0 where
  pub scan : List A → List A
  pub count-scan : (p : A → Bool) (rows : List A) → count p (scan rows) ≡ count p rows

-- The rows that a scan of an HNSW index on the embeddings meets, before the WHERE clause: it is
-- approximate, so that it may miss any row, but it makes up none. A scan of the table is one too.
pub record Index (A : Type 0) : Type 0 where
  pub near : List A → List A
  pub count-near-le : (p : A → Bool) (rows : List A) → count p (near rows) ≤ count p rows

-- The unique index on entities; a missing type counts as the empty one.
abbrev pub type_or_empty : Option Text → Text
type_or_empty none = []
type_or_empty (some t) = t

abbrev pub same_entity : Scope → Text → Option Text → Entity → Bool
same_entity scope name type e =
    e.scope == scope && lower e.name == lower name && type_or_empty e.type == type_or_empty type

abbrev pub renamed : Scope → Text → Option Text → Entity → Entity
renamed scope name type e = if same_entity scope name type e then record e { name = name } else e

abbrev pub distinct : List (Scope × Text) → List (Scope × Text)
distinct [] = []
distinct (k ∷ ks) = let rest = distinct ks in if contains rest k then rest else k ∷ rest

module _ {F : Type 0} (fl : Floats F) where
  -- The row as its columns keep it: the confidence is REAL, the embedding is written as text.
  abbrev pub kept_memory : Memory F → Memory F
  kept_memory m = record m {
    confidence = fl.real m.confidence;
    embedding = vector_column fl m.embedding;
  }

  unfoldable pub insert_memory : Memory F → Db F → Db F
  insert_memory m db = record db { memories = db.memories ++ (kept_memory m ∷ []) }

  -- ON CONFLICT DO NOTHING, for the primary key (src, dst, relation); no edge to itself. The weight
  -- is REAL.
  unfoldable pub insert_edge : ℕ → ℕ → String → F → Db F → Db F
  unfolding nat_eq string_eq
  insert_edge src dst relation weight db =
      if src == dst
      then db
      else if any (λ e. e.src == src && e.dst == dst && e.relation == relation) db.edges
      then db
      else record db {
        edges =
            db.edges
            ++ (record { src = src; dst = dst; relation = relation; weight = fl.real weight } ∷ []);
      }

module _ {F : Type 0} where
  abbrev pub is_about : Scope → Text → Memory F → Bool
  is_about scope key m = m.scope == scope && row_key m == key

  -- ORDER BY created_at DESC
  abbrev pub newer : Memory F → Memory F → Bool
  newer a b = ltb (instant b.created_at) (instant a.created_at)

  -- WHERE scope AND key ORDER BY created_at DESC
  unfoldable pub rows_about : Scan (Memory F) → Scope → Text → List (Memory F) → List (Memory F)
  unfolding sort scope_eq list_eq nat_eq instant
  rows_about sc scope key ms = sort newer (sc.scan (filter (is_about scope key) ms))

  abbrev pub deactivated : List ℕ → Memory F → Memory F
  deactivated ids m = if contains ids m.id then record m { active = false } else m

  -- UPDATE memories SET active = false WHERE id = ANY(ids)
  unfoldable pub deactivate : List ℕ → Db F → Db F
  unfolding nat_eq
  deactivate ids db = record db { memories = map (deactivated ids) db.memories }

  abbrev pub upserted : Scope → Text → Option Text → Db F → Option Entity → ℕ × Db F
  upserted scope name type db (some e) = (
    e.id,
    record db { entities = map (renamed scope name type) db.entities; supply = db.supply + 1 },
  )
  upserted scope name type db none = (
    db.supply,
    record db {
      entities =
          db.entities ++ (record { id = db.supply; scope = scope; name = name; type = type } ∷ []);
      supply = db.supply + 1;
    },
  )

  -- INSERT … ON CONFLICT DO UPDATE SET name … RETURNING id. The new id is drawn in either case.
  unfoldable pub upsert_entity : Scope → Text → Option Text → Db F → ℕ × Db F
  unfolding lower scope_eq list_eq nat_eq
  upsert_entity scope name type db =
      upserted scope name type db (find (same_entity scope name type) db.entities)

  -- ON CONFLICT DO NOTHING, for the primary key (memory_id, entity_id)
  unfoldable pub link_mention : ℕ → ℕ → Db F → Db F
  unfolding nat_eq
  link_mention memory_id entity_id db =
      if any (λ n. n.memory_id == memory_id && n.entity_id == entity_id) db.mentions
      then db
      else record db {
        mentions = db.mentions ++ (record { memory_id = memory_id; entity_id = entity_id } ∷ []);
      }

  unfoldable pub active_memories_with_subject : Scope → Text → ℕ → Db F → List ℕ
  unfolding scope_eq list_eq nat_eq
  active_memories_with_subject scope subject exclude_id db =
      map (λ m. m.id)
        (filter
          (λ m. m.scope == scope && m.subject == subject && m.active && not (m.id == exclude_id))
          db.memories)

  -- `memories.supersedes` is ON DELETE SET NULL; mentions and edges are ON DELETE CASCADE.
  abbrev pub forget_priors : List ℕ → Memory F → Memory F
  forget_priors gone m = record m { supersedes = null_if_gone gone m.supersedes }

  -- DELETE FROM memories, by a condition.
  unfoldable pub delete_memories : (Memory F → Bool) → Db F → Db F
  unfolding nat_eq
  delete_memories p db =
      let gone = map (λ m. m.id) (filter p db.memories) in
      record db {
        memories = map (forget_priors gone) (filter (λ m. not (p m)) db.memories);
        mentions = filter (λ n. not (contains gone n.memory_id)) db.mentions;
        edges = filter (λ e. not (contains gone e.src || contains gone e.dst)) db.edges;
      }

  unfoldable pub delete_by_session : Text → Db F → Db F
  unfolding delete_memories option_eq list_eq
  delete_by_session session_id = delete_memories (λ m. m.source_session == some session_id)

  unfoldable pub delete_by_user : Text → Db F → Db F
  unfolding delete_memories scope_eq
  delete_by_user user_id = delete_memories (λ m. m.scope == user user_id)

  -- DELETE FROM entities, by scope; mentions are ON DELETE CASCADE.
  unfoldable pub delete_entities : Scope → Db F → Db F
  unfolding scope_eq nat_eq
  delete_entities scope db =
      let gone = map (λ e. e.id) (filter (λ e. e.scope == scope) db.entities) in
      record db {
        entities = filter (λ e. not (e.scope == scope)) db.entities;
        mentions = filter (λ n. not (contains gone n.entity_id)) db.mentions;
      }

  -- SELECT DISTINCT scope, key … WHERE source_session
  unfoldable pub affected_scope_keys : Text → Db F → List (Scope × Text)
  unfolding option_eq list_eq nat_eq pair_eq scope_eq
  affected_scope_keys session_id db = distinct (
      map (λ m. (m.scope, row_key m))
        (filter (λ m. m.source_session == some session_id) db.memories))

  abbrev pub set_inactive : Scope → Text → Memory F → Memory F
  set_inactive scope key m = if is_about scope key m then record m { active = false } else m

  abbrev pub set_active : ℕ → Memory F → Memory F
  set_active id m = if m.id == id then record m { active = true } else m

  abbrev pub activate_first : List (Memory F) → List (Memory F) → List (Memory F)
  activate_first [] ms = ms
  activate_first (latest ∷ _) ms = map (set_active latest.id) ms

  unfoldable pub recompute_active : Scan (Memory F) → Scope → Text → Db F → Db F
  unfolding rows_about
  recompute_active sc scope key db =
      let cleared = map (set_inactive scope key) db.memories in
      record db { memories = activate_first (rows_about sc scope key cleared) cleared }
