-- ===== src/Ingest/Edges.antt =====
-- The edges of a turn (src/memory_service/api/routes_turns.py) leave turns and memories as they are.
use higgsfield_memory_servic.Prelude.{ℕ, String, ◌≡◌, refl, ◌∙◌, List, [], ◌∷◌, arith}
use higgsfield_memory_servic.Text.{Text}
use higgsfield_memory_servic.Numbers.{Floats}
use higgsfield_memory_servic.Store.{Scope, Db}
use higgsfield_memory_servic.MemoryRepo.{insert_edge, active_memories_with_subject}
use higgsfield_memory_servic.Ingest.{link_co_extracted, link_peers, link_memories}

-- The turns and the memories are those of before.
pub record HasRowsOf {F : Type 0} (db next : Db F) : Type 0 where
  pub turns : next.turns ≡ db.turns
  pub memories : next.memories ≡ db.memories

module _ {F : Type 0} where
  HasRowsOf-refl : (db : Db F) → HasRowsOf db db
  HasRowsOf-refl db = record { turns = refl; memories = refl }

  HasRowsOf-trans : (a b c : Db F) → HasRowsOf a b → HasRowsOf b c → HasRowsOf a c
  HasRowsOf-trans a b c p q = record {
    turns = q.turns ∙ p.turns;
    memories = q.memories ∙ p.memories;
  }

module _ {F : Type 0} (fl : Floats F) where
  pub insert_edge-HasRowsOf :
      (src dst : ℕ) (relation : String) (w : F) (db : Db F)
      → HasRowsOf db (insert_edge fl src dst relation w db)
  unfolding insert_edge
  insert_edge-HasRowsOf src dst relation w db = record {
    turns = ground arith;
    memories = ground arith;
  }

  link_co_extracted-HasRowsOf :
      (src : ℕ) (rest : List (ℕ × Text)) (db : Db F)
      → HasRowsOf db (link_co_extracted fl src rest db)
  unfolding link_co_extracted
  link_co_extracted-HasRowsOf src [] db = HasRowsOf-refl db
  link_co_extracted-HasRowsOf src ((dst, _) ∷ rest) db =
      HasRowsOf-trans db _ _ (insert_edge-HasRowsOf src dst "co_extracted" (fl.decimal 7 1) db)
        (link_co_extracted-HasRowsOf src rest _)

  link_peers-HasRowsOf :
      (src : ℕ) (peers : List ℕ) (db : Db F) → HasRowsOf db (link_peers fl src peers db)
  unfolding link_peers
  link_peers-HasRowsOf src [] db = HasRowsOf-refl db
  link_peers-HasRowsOf src (peer ∷ peers) db =
      let w = fl.decimal 5 1 in
      HasRowsOf-trans db _ _ (insert_edge-HasRowsOf src peer "same_subject" w db) (
        HasRowsOf-trans _ _ _ (insert_edge-HasRowsOf peer src "same_subject" w _)
          (link_peers-HasRowsOf src peers _))

  pub link_memories-HasRowsOf :
      (scope : Scope) (inserted rest : List (ℕ × Text)) (db : Db F)
      → HasRowsOf db (link_memories fl scope inserted rest db)
  unfolding link_memories
  link_memories-HasRowsOf scope inserted [] db = HasRowsOf-refl db
  link_memories-HasRowsOf scope inserted ((src, subject) ∷ rest) db =
      let db1 = link_co_extracted fl src inserted db in
      let peers = active_memories_with_subject scope subject src db1 in
      HasRowsOf-trans db _ _ (link_co_extracted-HasRowsOf src inserted db) (
        HasRowsOf-trans db1 _ _ (link_peers-HasRowsOf src peers db1)
          (link_memories-HasRowsOf scope inserted rest _))
