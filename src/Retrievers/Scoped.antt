-- ===== src/Retrievers/Scoped.antt =====
-- What the four retrievers return: rows of the scope, and `limit` of them at most.
use higgsfield_memory_servic.Prelude.{
  ℕ, ◌≤◌, Bool, true, false, ◌≡◌, refl, sym, ap, subst, ◌∙◌, Option, none, some, List, [],
  if◌then◌else◌, String, map, arith, nat_eq, eq_of_==, filter, take, length, length-map,
  length-take-le, All, All-mono, All-take, All-map, ◌⊎◌, inl, inr,
}
use higgsfield_memory_servic.Text.{Text, is_empty}
use higgsfield_memory_servic.Numbers.{Floats}
use higgsfield_memory_servic.Dict.{lookup}
use higgsfield_memory_servic.Sorting.{sort, All-sort}
use higgsfield_memory_servic.Candidate.{Candidate}
use higgsfield_memory_servic.QueryText.{to_or_tsquery}
use higgsfield_memory_servic.Store.{Scope, Turn, Memory, Db, scope_eq}
use higgsfield_memory_servic.Store.Scopes.{turn_scopes, memory_scopes, RefersTo}
use higgsfield_memory_servic.Store.Sound.{IsSound}
use higgsfield_memory_servic.MemoryRepo.{Scan}
use higgsfield_memory_servic.MemoryRepo.Scans.{
  IsWithin, turns-near, memories-near, turns-scan, memories-scan-IsWithin,
}
use higgsfield_memory_servic.Store.Sound.Rows.{IsTurn, IsMemory, turns-IsTurn, memories-IsMemory}
use higgsfield_memory_servic.Retrievers.{
  Ranking, turn_candidate, memory_candidate, turns_near, vector_turns, fts_turns, memories_near,
  vector_memories, fts_memories,
}

-- The candidate is a turn or a memory of the scope, and its source turn is of the scope.
pub record IsOwned {F : Type 0} (db : Db F) (scope : Scope) (c : Candidate F) : Type 0 where
  pub place :
      ((c.kind ≡ "turn") × (lookup c.id (turn_scopes db.turns) ≡ some scope))
      ⊎ ((c.kind ≡ "memory") × (lookup c.id (memory_scopes db.memories) ≡ some scope))
  pub source : RefersTo (turn_scopes db.turns) c.source_turn scope

pub record IsRetrieved {F : Type 0} (db : Db F) (scope : Scope) (limit : ℕ)
    (cands : List (Candidate F)) : Type 0 where
  pub owned : All (IsOwned db scope) cands
  pub few : length cands ≤ limit

module _ {F : Type 0} (db : Db F) (scope : Scope) (limit : ℕ) where
  none-IsRetrieved : IsRetrieved db scope limit []
  none-IsRetrieved = record { owned = tt; few = omega arith }

  -- The first rows in some order, as candidates.
  shown-IsRetrieved :
      {A : Type 0} (P : A → Type 0) (precedes : A → A → Bool) (f : A → Candidate F)
      → ((x : A) → P x → IsOwned db scope (f x))
      → (rows : List A) → All P rows
      → IsRetrieved db scope limit (map f (take limit (sort precedes rows)))
  shown-IsRetrieved P precedes f owned rows h =
      let first = take limit (sort precedes rows) in
      record {
        owned = All-map (IsOwned db scope) f first (
            All-mono P _ owned first
              (All-take P limit (sort precedes rows) (All-sort precedes P rows h)));
        few =
            subst (λ n. n ≤ limit) (sym (length-map first f))
              (length-take-le limit (sort precedes rows));
      }

  turn-IsOwned :
      (source : String) (score : Turn F → F) (t : Turn F)
      → lookup t.id (turn_scopes db.turns) ≡ some scope
      → IsOwned db scope (turn_candidate source score t)
  unfolding turn_candidate
  turn-IsOwned source score t h = record { place = inl (refl, h); source = h }

  memory-IsOwned :
      (source : String) (score : Memory F → F) (m : Memory F)
      → IsWithin db scope m
      → IsOwned db scope (memory_candidate source score db m)
  unfolding memory_candidate
  memory-IsOwned source score m h = record {
    place = inr (refl, h.row.own ∙ ap some h.within);
    source = subst (RefersTo (turn_scopes db.turns) m.source_turn) h.within h.row.source;
  }

  module _ (sound : IsSound db) (fl : Floats F) (rk : Ranking F) where
    turns-IsRetrieved :
        (sc : Scan (Turn F)) (p : Turn F → Bool) (precedes : Turn F → Turn F → Bool)
        (source : String) (score : Turn F → F)
        → ((t : Turn F) → p t ≡ true → t.scope ≡ scope)
        → (rows : List (Turn F)) → All (IsTurn db) rows
        → IsRetrieved db scope limit (
            map
              (turn_candidate source score)
              (take limit (sort precedes (sc.scan (filter p rows)))))
    turns-IsRetrieved sc p precedes source score here rows of_table =
        shown-IsRetrieved _ precedes (turn_candidate source score) (turn-IsOwned source score) _
          (turns-scan db sound sc p scope here rows of_table)

    memories-IsRetrieved :
        (sc : Scan (Memory F)) (p : Memory F → Bool) (precedes : Memory F → Memory F → Bool)
        (source : String) (score : Memory F → F)
        → ((m : Memory F) → p m ≡ true → m.scope ≡ scope)
        → (rows : List (Memory F)) → All (IsMemory db) rows
        → IsRetrieved db scope limit (
            map
              (memory_candidate source score db)
              (take limit (sort precedes (sc.scan (filter p rows)))))
    memories-IsRetrieved sc p precedes source score here rows of_table =
        shown-IsRetrieved (IsWithin db scope) precedes (memory_candidate source score db)
          (memory-IsOwned source score) _
          (memories-scan-IsWithin db sound sc p scope here rows of_table)

    pub vector_turns-IsRetrieved :
        (sc : Scan (Turn F)) (vec : Option (List F))
        → IsRetrieved db scope limit (vector_turns fl rk sc vec scope limit db)
    unfolding vector_turns turns_near
    vector_turns-IsRetrieved sc none = none-IsRetrieved
    vector_turns-IsRetrieved sc (some vec) =
        turns-IsRetrieved sc _ _ _ _ (λ t h. eq_of_== t.scope scope (ground arith)) _
          (turns-near db sound (rk.turn_index _))

    pub vector_memories-IsRetrieved :
        (sc : Scan (Memory F)) (vec : Option (List F))
        → IsRetrieved db scope limit (vector_memories fl rk sc vec scope limit db)
    unfolding vector_memories memories_near
    vector_memories-IsRetrieved sc none = none-IsRetrieved
    vector_memories-IsRetrieved sc (some vec) =
        memories-IsRetrieved sc _ _ _ _ (λ m h. eq_of_== m.scope scope (ground arith)) _
          (memories-near db sound (rk.memory_index _))

    IsRetrieved-if :
        (b : Bool) (cands : List (Candidate F))
        → IsRetrieved db scope limit cands
        → IsRetrieved db scope limit (if b then [] else cands)
    IsRetrieved-if true cands h = none-IsRetrieved
    IsRetrieved-if false cands h = h

    pub fts_turns-IsRetrieved :
        (sc : Scan (Turn F)) (query : Text)
        → IsRetrieved db scope limit (fts_turns fl rk sc query scope limit db)
    unfolding fts_turns
    fts_turns-IsRetrieved sc query = IsRetrieved-if (is_empty (to_or_tsquery query)) _ (
        turns-IsRetrieved sc _ _ _ _ (λ t h. eq_of_== t.scope scope (ground arith)) _
          (turns-IsTurn db sound))

    pub fts_memories-IsRetrieved :
        (sc : Scan (Memory F)) (query : Text)
        → IsRetrieved db scope limit (fts_memories fl rk sc query scope limit db)
    unfolding fts_memories
    fts_memories-IsRetrieved sc query = IsRetrieved-if (is_empty (to_or_tsquery query)) _ (
        memories-IsRetrieved sc _ _ _ _ (λ m h. eq_of_== m.scope scope (ground arith)) _
          (memories-IsMemory db sound))
