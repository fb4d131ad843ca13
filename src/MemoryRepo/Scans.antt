-- ===== src/MemoryRepo/Scans.antt =====
-- A scan returns rows of the table.
use higgsfield_memory_servic.Prelude.{
  Bool, true, not, ◌&&◌, ◌≡◌, ap, ◌∙◌, some, List, arith, nat_eq, string_eq, list_eq, filter,
  count_of_All, All-count, All, All-mono, filter-All,
}
use higgsfield_memory_servic.Dict.{lookup}
use higgsfield_memory_servic.Store.{Scope, Turn, Memory, Db, scope_eq}
use higgsfield_memory_servic.Store.Scopes.{turn_scopes}
use higgsfield_memory_servic.Store.Sound.{IsSound}
use higgsfield_memory_servic.Store.Sound.Rows.{
  IsTurn, is_turn, IsMemory, is_memory_row, IsTurn-complete, IsTurn-sound, IsMemory_complete,
  IsMemory_sound, turns-IsTurn, memories-IsMemory,
}
use higgsfield_memory_servic.MemoryRepo.{Scan, Index}

-- What a test decides is kept by a scan.
pub scan-All :
    {A : Type 0} (sc : Scan A) (P : A → Type 0) (b : A → Bool)
    → ((x : A) → P x → b x ≡ true)
    → ((x : A) → b x ≡ true → P x)
    → (xs : List A) → All P xs
    → All P (sc.scan xs)
scan-All sc P b complete sound xs h =
    All-mono (λ x. b x ≡ true) P sound (sc.scan xs)
      (All-count b (sc.scan xs) (
        sc.count-scan (λ x. not (b x)) xs
        ∙ count_of_All b xs (All-mono P (λ x. b x ≡ true) complete xs h)))

-- What a test decides is kept by the scan of an index.
pub near-All :
    {A : Type 0} (index : Index A) (P : A → Type 0) (b : A → Bool)
    → ((x : A) → P x → b x ≡ true)
    → ((x : A) → b x ≡ true → P x)
    → (xs : List A) → All P xs
    → All P (index.near xs)
near-All index P b complete sound xs h =
    let none_missed = count_of_All b xs (All-mono P (λ x. b x ≡ true) complete xs h) in
    All-mono (λ x. b x ≡ true) P sound (index.near xs)
      (All-count b (index.near xs)
        (omega (arith, index.count-near-le (λ x. not (b x)) xs, none_missed)))

-- A row of the table, in the scope.
pub record IsWithin {F : Type 0} (db : Db F) (scope : Scope) (m : Memory F) : Type 0 where
  pub row : IsMemory db m
  pub within : m.scope ≡ scope

module _ {F : Type 0} (db : Db F) (sound : IsSound db) where
  pub turns-near : (index : Index (Turn F)) → All (IsTurn db) (index.near db.turns)
  turns-near index =
      near-All index (IsTurn db) (is_turn db) (IsTurn-complete db) (IsTurn-sound db) db.turns
        (turns-IsTurn db sound)

  pub memories-near : (index : Index (Memory F)) → All (IsMemory db) (index.near db.memories)
  memories-near index =
      near-All index (IsMemory db) (is_memory_row db) (IsMemory_complete db) (IsMemory_sound db)
        db.memories (memories-IsMemory db sound)

  pub turns-scan :
      (sc : Scan (Turn F)) (p : Turn F → Bool) (scope : Scope)
      → ((t : Turn F) → p t ≡ true → t.scope ≡ scope)
      → (rows : List (Turn F)) → All (IsTurn db) rows
      → All (λ t. lookup t.id (turn_scopes db.turns) ≡ some scope) (sc.scan (filter p rows))
  turns-scan sc p scope here rows of_table =
      All-mono (λ t. IsTurn db t × (p t ≡ true)) _ (λ t h. h.0 ∙ ap some (here t h.1))
        (sc.scan (filter p rows))
        (scan-All sc (λ t. IsTurn db t × (p t ≡ true)) (λ t. is_turn db t && p t)
          (λ t h. ground (arith, IsTurn-complete db t h.0, h.1))
          (λ t h. (IsTurn-sound db t (ground (arith, h)), ground (arith, h))) (filter p rows)
          (filter-All (IsTurn db) _ p (λ t keep own. (own, keep)) rows of_table))

  pub memories-scan :
      (sc : Scan (Memory F)) (p : Memory F → Bool) (rows : List (Memory F))
      → All (IsMemory db) rows
      → All (λ m. IsMemory db m × (p m ≡ true)) (sc.scan (filter p rows))
  memories-scan sc p rows of_table =
      scan-All sc (λ m. IsMemory db m × (p m ≡ true)) (λ m. is_memory_row db m && p m)
        (λ m h. ground (arith, IsMemory_complete db m h.0, h.1))
        (λ m h. (IsMemory_sound db m (ground (arith, h)), ground (arith, h))) (filter p rows)
        (filter-All (IsMemory db) _ p (λ m keep own. (own, keep)) rows of_table)

  pub memories-scan-IsWithin :
      (sc : Scan (Memory F)) (p : Memory F → Bool) (scope : Scope)
      → ((m : Memory F) → p m ≡ true → m.scope ≡ scope)
      → (rows : List (Memory F)) → All (IsMemory db) rows
      → All (IsWithin db scope) (sc.scan (filter p rows))
  memories-scan-IsWithin sc p scope here rows of_table =
      All-mono _ (IsWithin db scope) (λ m h. record { row = h.0; within = here m h.1 })
        (sc.scan (filter p rows)) (memories-scan sc p rows of_table)

  pub memories-scan_all : (sc : Scan (Memory F)) → All (IsMemory db) (sc.scan db.memories)
  memories-scan_all sc =
      scan-All sc (IsMemory db) (is_memory_row db) (IsMemory_complete db) (IsMemory_sound db)
        db.memories (memories-IsMemory db sound)
