-- ===== src/Retrievers/Complete.antt =====
-- A retriever by text misses no row that it matches, unless there are more of them than its limit.
use higgsfield_memory_servic.Prelude.{
  ℕ, ◌≤◌, Bool, true, false, ◌&&◌, ◌≡◌, refl, sym, ap, subst, ◌∙◌, List, [], ◌∷◌, map, arith, ◌==◌,
  nat_eq, filter, take, length, count, count-map, count-filter, count_ext, take_all,
}
use higgsfield_memory_servic.Text.{Text, is_empty}
use higgsfield_memory_servic.Numbers.{Floats}
use higgsfield_memory_servic.Sorting.{sort, count-sort}
use higgsfield_memory_servic.Candidate.{Candidate}
use higgsfield_memory_servic.QueryText.{to_or_tsquery}
use higgsfield_memory_servic.Store.{Scope, Turn, Memory, Db, scope_eq}
use higgsfield_memory_servic.MemoryRepo.{Scan}
use higgsfield_memory_servic.Retrievers.{
  Ranking, turn_candidate, memory_candidate, better, fts_turns, fts_memories,
}

length-count : {A : Type 0} (xs : List A) → length xs ≡ count (λ _. true) xs
length-count [] = refl
length-count (x ∷ xs) = omega (arith, length-count xs)

module _ {F A : Type 0} (sc : Scan A) (p : A → Bool) (precedes : A → A → Bool) (f : A → Candidate F)
    (rows : List A) (limit : ℕ) where
  abbrev ordered : List A
  ordered = sort precedes (sc.scan (filter p rows))

  count-ordered : (q : A → Bool) → count q ordered ≡ count (λ x. p x && q x) rows
  count-ordered q =
      count-sort precedes q (sc.scan (filter p rows))
      ∙ sc.count-scan q (filter p rows)
      ∙ count-filter q p rows

  length-ordered : length ordered ≡ count p rows
  length-ordered =
      length-count ordered
      ∙ count-ordered (λ _. true)
      ∙ count_ext (λ x. p x && true) p (λ x. ground arith) rows

  shown_complete :
      count p rows ≤ limit
      → (k : ℕ)
      → count (λ c. c.id == k) (map f (take limit ordered)) ≡ count (λ x. p x && (f x).id == k) rows
  shown_complete few k =
      count-map (λ c. c.id == k) f (take limit ordered)
      ∙ ap (count (λ x. (f x).id == k))
          (take_all limit ordered (subst (λ n. n ≤ limit) (sym length-ordered) few))
      ∙ count-ordered (λ x. (f x).id == k)

module _ {F : Type 0} (fl : Floats F) (rk : Ranking F) (scope : Scope) (limit : ℕ) (db : Db F) where
  abbrev pub matching_turn : Text → Turn F → Bool
  matching_turn tsq t = t.scope == scope && rk.turn_matches tsq t

  abbrev pub matching_memory : Text → Memory F → Bool
  matching_memory tsq m = m.scope == scope && m.active && rk.memory_matches tsq m

  -- The candidates with an id.
  abbrev pub hits : ℕ → List (Candidate F) → ℕ
  hits k = count (λ c. c.id == k)

  module _ (turn_scan : Scan (Turn F)) (memory_scan : Scan (Memory F)) (query : Text) where
    -- Of each of the two retrievers, for one id: it returns as many candidates as there are rows.
    pub record IsComplete (k : ℕ) : Type 0 where
      pub matching_turns :
          hits k (fts_turns fl rk turn_scan query scope limit db)
          ≡ count (λ t. matching_turn (to_or_tsquery query) t && t.id == k) db.turns
      pub matching_memories :
          hits k (fts_memories fl rk memory_scan query scope limit db)
          ≡ count (λ m. matching_memory (to_or_tsquery query) m && m.id == k) db.memories

    matching_turns_complete :
        is_empty (to_or_tsquery query) ≡ false
        → count (matching_turn (to_or_tsquery query)) db.turns ≤ limit
        → (k : ℕ)
        → hits k (fts_turns fl rk turn_scan query scope limit db)
          ≡ count (λ t. matching_turn (to_or_tsquery query) t && t.id == k) db.turns
    unfolding fts_turns turn_candidate
    matching_turns_complete words few k = rw words (
        shown_complete turn_scan (matching_turn (to_or_tsquery query))
          (better fl rk (rk.turn_rank (to_or_tsquery query)))
          (turn_candidate "turn_fts" (rk.turn_rank (to_or_tsquery query))) db.turns limit few k)

    matching_memories_complete :
        is_empty (to_or_tsquery query) ≡ false
        → count (matching_memory (to_or_tsquery query)) db.memories ≤ limit
        → (k : ℕ)
        → hits k (fts_memories fl rk memory_scan query scope limit db)
          ≡ count (λ m. matching_memory (to_or_tsquery query) m && m.id == k) db.memories
    unfolding fts_memories memory_candidate
    matching_memories_complete words few k = rw words (
        shown_complete memory_scan (matching_memory (to_or_tsquery query))
          (better fl rk (rk.memory_rank (to_or_tsquery query)))
          (memory_candidate "memory_fts" (rk.memory_rank (to_or_tsquery query)) db) db.memories
          limit few k)

    -- For every order of the scans and every rank: with a query that has words, and no more matching
    -- rows in the scope than the limit, the two retrievers by text return every matching row of the
    -- scope as often as the table has it, hence once if identifiers are unique.
    pub text_search-IsComplete :
        is_empty (to_or_tsquery query) ≡ false
        → count (matching_turn (to_or_tsquery query)) db.turns ≤ limit
        → count (matching_memory (to_or_tsquery query)) db.memories ≤ limit
        → (k : ℕ) → IsComplete k
    text_search-IsComplete words mt mm k = record {
      matching_turns = matching_turns_complete words mt k;
      matching_memories = matching_memories_complete words mm k;
    }
