-- ===== src/MemoryRepo/Queries.antt =====
-- The reads of src/memory_service/repo/memory_repo.py. A LEFT JOIN on a primary key finds one row or
-- none; rows that ORDER BY leaves equal come in the order of the scan.
pub mod Scoped
use mathlib.Core.Option.{get_or}
use higgsfield_memory_servic.Prelude.{
  ℕ, String, Bool, true, false, not, ◌&&◌, ◌||◌, Option, none, some, List, [], ◌∷◌, ◌++◌, map, ◌==◌,
  nat_eq, list_eq, string_eq, ltb, if◌then◌else◌, filter, any, find, take, contains,
}
use higgsfield_memory_servic.Text.{Text, lower, is_empty}
use higgsfield_memory_servic.Numbers.{Floats}
use higgsfield_memory_servic.Datetime.{Datetime, instant}
use higgsfield_memory_servic.Sorting.{sort}
use higgsfield_memory_servic.Candidate.{Prior}
use higgsfield_memory_servic.Models.{MemoryType, fact, preference, opinion, event}
use higgsfield_memory_servic.Format.{StableFact}
use higgsfield_memory_servic.Store.{
  Scope, user, Turn, Memory, Entity, Mention, Edge, Db, row_key, scope_eq,
}
use higgsfield_memory_servic.MemoryRepo.{Scan, newer}

-- A row of `memories_mentioning_entities`.
pub record Reached (F : Type 0) : Type 0 where
  pub id : ℕ
  pub subject : Text
  pub predicate : Text
  pub object : Text
  pub value : Text
  pub type : MemoryType
  pub confidence : F
  pub source_turn : Option ℕ
  pub source_session : Option Text
  pub updated_at : Option Datetime
  pub prior : Option Prior

-- A row of `memories_via_edges`.
pub record Neighbour (F : Type 0) : Type 0 where
  pub memory : Reached F
  pub edge_weight : F
  pub relations : List String

-- `MemoryOut` of src/memory_service/schemas/memories.py
pub record MemoryOut (F : Type 0) : Type 0 where
  pub id : ℕ
  pub type : MemoryType
  pub subject : Text
  pub predicate : Text
  pub object : Text
  pub key : Text
  pub value : Text
  pub raw_quote : Option Text
  pub confidence : F
  pub source_session : Option Text
  pub source_turn : Option ℕ
  pub created_at : Datetime
  pub updated_at : Datetime
  pub supersedes : Option ℕ
  pub active : Bool

-- `WHEN 'fact' THEN 0 WHEN 'preference' THEN 1 ELSE 2`
abbrev pub stability : MemoryType → ℕ
stability fact = 0
stability preference = 1
stability _ = 2

-- `m.type IN ('fact','preference','opinion')`
abbrev pub is_stable : MemoryType → Bool
is_stable event = false
is_stable _ = true

module _ {F : Type 0} where
  -- LEFT JOIN memories p ON p.id = m.supersedes
  unfoldable pub join_prior : Db F → Option ℕ → Option (Memory F)
  unfolding nat_eq
  join_prior db none = none
  join_prior db (some id) = find (λ p. p.id == id) db.memories

  -- LEFT JOIN turns t ON t.id = m.source_turn
  unfoldable pub join_turn : Db F → Option ℕ → Option (Turn F)
  unfolding nat_eq
  join_turn db none = none
  join_turn db (some id) = find (λ t. t.id == id) db.turns

  abbrev stated_at : Option (Turn F) → Datetime → Datetime
  stated_at none updated_at = updated_at
  stated_at (some t) updated_at = t.timestamp

  abbrev prior_entry : Option (Memory F) → Option (Turn F) → Option Prior
  prior_entry none t = none
  prior_entry (some p) t = some (record {
    id = p.id;
    value = some p.value;
    object = some p.object;
    updated_at = some (stated_at t p.updated_at);
  })

  -- The `prior` of an item: the superseded memory, until the time at which the new one was stated.
  unfoldable pub prior_of_row : Db F → Memory F → Option Prior
  unfolding join_prior join_turn
  prior_of_row db m = prior_entry (join_prior db m.supersedes) (join_turn db m.source_turn)

  unfoldable pub stable_fact : Db F → Memory F → StableFact F
  unfolding prior_of_row
  stable_fact db m = record {
    id = m.id;
    type = m.type;
    subject = m.subject;
    predicate = m.predicate;
    object = m.object;
    value = some m.value;
    confidence = m.confidence;
    source_turn = m.source_turn;
    updated_at = some m.updated_at;
    prior = prior_of_row db m;
  }

  unfoldable pub reached : Db F → Memory F → Reached F
  unfolding prior_of_row
  reached db m = record {
    id = m.id;
    subject = m.subject;
    predicate = m.predicate;
    object = m.object;
    value = m.value;
    type = m.type;
    confidence = m.confidence;
    source_turn = m.source_turn;
    source_session = m.source_session;
    updated_at = some m.updated_at;
    prior = prior_of_row db m;
  }

  -- `_row_to_memory`
  unfoldable pub row_to_memory : Memory F → MemoryOut F
  row_to_memory m = record {
    id = m.id;
    type = m.type;
    subject = m.subject;
    predicate = m.predicate;
    object = m.object;
    key = row_key m;
    value = m.value;
    raw_quote = m.raw_quote;
    confidence = m.confidence;
    source_session = m.source_session;
    source_turn = m.source_turn;
    created_at = m.created_at;
    updated_at = m.updated_at;
    supersedes = m.supersedes;
    active = m.active;
  }

  -- Entities whose name, in lower case, is that of one of the names. Only the set of their ids is
  -- used.
  unfoldable pub entities_for_names : Scope → List Text → Db F → List Entity
  unfolding scope_eq list_eq nat_eq lower
  entities_for_names scope names db =
      let wanted = map lower (filter (λ n. not (is_empty n)) names) in
      if is_empty names
      then []
      else filter (λ e. e.scope == scope && contains wanted (lower e.name)) db.entities

  -- The rows of the JOIN with the mentions: one for each mention of a wanted entity.
  abbrev copies : Memory F → List Mention → List (Memory F)
  copies m [] = []
  copies m (_ ∷ ns) = m ∷ copies m ns

  abbrev mentions_of : List ℕ → List Mention → Memory F → List Mention
  mentions_of ids ns m = filter (λ n. n.memory_id == m.id && contains ids n.entity_id) ns

  unfoldable pub join_mentions : List ℕ → List Mention → List (Memory F) → List (Memory F)
  unfolding nat_eq
  join_mentions ids ns [] = []
  join_mentions ids ns (m ∷ ms) = copies m (mentions_of ids ns m) ++ join_mentions ids ns ms

  -- The loop with `seen`.
  unfoldable pub first_of_each : List ℕ → List (Memory F) → List (Memory F)
  unfolding nat_eq
  first_of_each seen [] = []
  first_of_each seen (m ∷ ms) = elim (contains seen m.id) [
    | true ↦ first_of_each seen ms
    | false ↦ m ∷ first_of_each (m.id ∷ seen) ms
  ]

  -- ORDER BY created_at DESC, id
  abbrev pub newer_or_smaller : Memory F → Memory F → Bool
  newer_or_smaller a b = newer a b || not (newer b a) && ltb a.id b.id

  unfoldable pub list_by_user : Text → Db F → List (MemoryOut F)
  unfolding sort scope_eq list_eq nat_eq instant row_to_memory
  list_by_user user_id db =
      map row_to_memory (sort newer_or_smaller (filter (λ m. m.scope == user user_id) db.memories))

module _ {F : Type 0} (fl : Floats F) (sc : Scan (Memory F)) where
  -- The ORDER BY of `list_stable_facts`.
  abbrev more_stable : Memory F → Memory F → Bool
  more_stable a b =
      ltb (stability a.type) (stability b.type)
      || (stability a.type == stability b.type)
        && (fl.lt b.confidence a.confidence
            || not (fl.lt a.confidence b.confidence)
              && ltb (instant b.updated_at) (instant a.updated_at))

  abbrev stable_row : Scope → F → Memory F → Bool
  stable_row scope min_confidence m =
      m.scope == scope && m.active && is_stable m.type && fl.le min_confidence m.confidence

  unfoldable pub list_stable_facts : Scope → F → ℕ → Db F → List (StableFact F)
  unfolding sort scope_eq nat_eq instant stable_fact
  list_stable_facts scope min_confidence limit db = map (stable_fact db) (
      take limit
        (sort more_stable (sc.scan (filter (stable_row scope min_confidence) db.memories))))

  -- ORDER BY m.confidence DESC
  abbrev surer : Memory F → Memory F → Bool
  surer a b = fl.lt b.confidence a.confidence

  unfoldable pub memories_mentioning_entities : List ℕ → ℕ → Db F → List (Reached F)
  unfolding sort join_mentions first_of_each reached
  memories_mentioning_entities entity_ids limit db =
      if is_empty entity_ids
      then []
      else map (reached db) (
          first_of_each [] (
            take limit (
              sort surer (
                join_mentions entity_ids db.mentions
                  (sc.scan (filter (λ m. m.active) db.memories))))))

  -- max(e.weight), over one edge at least.
  abbrev max_weight : F → List (Edge F) → F
  max_weight w [] = w
  max_weight w (e ∷ es) = max_weight (if fl.lt w e.weight then e.weight else w) es

  -- array_agg(DISTINCT e.relation); nothing reads their order.
  abbrev distinct_relations : List (Edge F) → List String
  distinct_relations [] = []
  distinct_relations (e ∷ es) =
      let rest = distinct_relations es in
      if contains rest e.relation then rest else e.relation ∷ rest

  abbrev edges_to : List ℕ → List (Edge F) → Memory F → List (Edge F)
  edges_to seeds es m = filter (λ e. e.dst == m.id && contains seeds e.src) es

  abbrev grouped : Memory F → List (Edge F) → List (Memory F × F × List String)
  grouped m [] = []
  grouped m (e ∷ es) = (m, max_weight e.weight es, distinct_relations (e ∷ es)) ∷ []

  -- The groups of the JOIN with the edges: one for each neighbour that is active and no seed.
  unfoldable pub join_edges :
      List ℕ → List (Edge F) → List (Memory F) → List (Memory F × F × List String)
  unfolding nat_eq string_eq
  join_edges seeds es [] = []
  join_edges seeds es (m ∷ ms) =
      (if m.active && not (contains seeds m.id) then grouped m (edges_to seeds es m) else [])
      ++ join_edges seeds es ms

  -- ORDER BY edge_weight DESC, m.confidence DESC
  abbrev closer : Memory F × F × List String → Memory F × F × List String → Bool
  closer a b = fl.lt b.1 a.1 || not (fl.lt a.1 b.1) && surer a.0 b.0

  abbrev neighbour : Db F → Memory F × F × List String → Neighbour F
  neighbour db g = record { memory = reached db g.0; edge_weight = g.1; relations = g.2 }

  unfoldable pub memories_via_edges : List ℕ → ℕ → Db F → List (Neighbour F)
  unfolding sort join_edges reached
  memories_via_edges src_memory_ids limit db =
      if is_empty src_memory_ids
      then []
      else map (neighbour db)
          (take limit (sort closer (join_edges src_memory_ids db.edges (sc.scan db.memories))))
