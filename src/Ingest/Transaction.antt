-- ===== src/Ingest/Transaction.antt =====
-- The edges of a turn, and the whole transaction, keep every reference within the turn's scope.
use mathlib.Core.List.{map-append}
use higgsfield_memory_servic.Prelude.{
  ℕ, ◌+◌, String, Bool, true, false, not, ◌&&◌, ◌≡◌, refl, ◌∙◌, sym, ap, subst, Option, some, List,
  [], ◌∷◌, map, arith, ◌==◌, eq_of_==, nat_eq, list_eq, All, All-mono, filter, Bool-cases, inl, inr,
}
use higgsfield_memory_servic.Text.{Text}
use higgsfield_memory_servic.Numbers.{Floats}
use higgsfield_memory_servic.Datetime.{Datetime}
use higgsfield_memory_servic.Dict.{lookup}
use higgsfield_memory_servic.Models.{MemoryCandidate}
use higgsfield_memory_servic.Store.{Scope, Memory, Db, scope_eq}
use higgsfield_memory_servic.Store.Scopes.{
  turn_scopes, memory_scopes, All-lookup, lookup-none_of_Below, lookup-append_fresh,
}
use higgsfield_memory_servic.Store.Sound.{IsSound}
use higgsfield_memory_servic.Store.Sound.Inserts.{
  draw-IsSound, add_turn-IsSound, insert_edge-IsSound,
}
use higgsfield_memory_servic.TurnRepo.{TurnIn, scope_for, insert_turn}
use higgsfield_memory_servic.MemoryRepo.{Scan, insert_edge, active_memories_with_subject}
use higgsfield_memory_servic.Ingest.Edges.{insert_edge-HasRowsOf}
use higgsfield_memory_servic.Ingest.Isolation.{In, IsSame, IsSame-trans}
use higgsfield_memory_servic.Ingest.Batches.{ingest_candidates-IsBatch}
use higgsfield_memory_servic.Ingest.{link_co_extracted, link_peers, link_memories, ingest_turn}

first_of : (a b c d : Bool) → (a && b && c && d) ≡ true → a ≡ true
first_of true b c d h = refl
first_of false b c d h = h

module _ {F : Type 0} (fl : Floats F) where
  insert_edge-IsSame :
      (scope : Scope) (src dst : ℕ) (relation : String) (weight : F) (db : Db F)
      → IsSound db
      → In scope db src
      → In scope db dst
      → IsSame db (insert_edge fl src dst relation weight db)
  insert_edge-IsSame scope src dst relation weight db h hs hd = record {
    sound =
        insert_edge-IsSound db h fl src dst relation weight
          record { scope = scope; left = hs; right = hd };
    memories = ap memory_scopes (insert_edge-HasRowsOf fl src dst relation weight db).memories;
    turns = (insert_edge-HasRowsOf fl src dst relation weight db).turns;
  }

module _ {F : Type 0} where
  -- What is in the scope stays there.
  keep :
      (scope : Scope) (db next : Db F) (id : ℕ) → IsSame db next → In scope db id → In scope next id
  keep scope db next id same = subst (λ d. lookup id d ≡ some scope) (sym same.memories)

  keep-All :
      {A : Type 0} (id : A → ℕ) (scope : Scope) (db next : Db F) (xs : List A)
      → IsSame db next
      → All (λ x. In scope db (id x)) xs
      → All (λ x. In scope next (id x)) xs
  keep-All id scope db next xs same = All-mono _ _ (λ x. keep scope db next (id x) same) xs

  active_memories_with_subject-In :
      (scope : Scope) (subject : Text) (exclude_id : ℕ) (db : Db F)
      → IsSound db
      → All (In scope db) (active_memories_with_subject scope subject exclude_id db)
  unfolding active_memories_with_subject
  active_memories_with_subject-In scope subject exclude_id db h =
      picked db.memories (All-lookup (memory_scopes db.memories) h.memory_ids)
    where
      picked :
          (ms : List (Memory F))
          → All (λ x. lookup x.0 (memory_scopes db.memories) ≡ some x.1) (memory_scopes ms)
          → All (In scope db) (
              map
                (λ m. m.id)
                (filter
                  (λ m.
                    m.scope == scope
                    && m.subject == subject
                    && m.active
                    && not (m.id == exclude_id))
                  ms))
      picked [] a = tt
      picked (m ∷ ms) a =
          elim (Bool-cases
            (m.scope == scope && m.subject == subject && m.active && not (m.id == exclude_id))) [
              | inl hit ↦ rw hit (
                a.0
                    ∙ ap some (
                        eq_of_== m.scope scope (
                          first_of (m.scope == scope) (m.subject == subject) m.active
                            (not (m.id == exclude_id)) hit)),
                picked ms a.1,
              )
              | inr other ↦ rw other (picked ms a.1)
            ]

module _ {F : Type 0} (fl : Floats F) (scope : Scope) where
  link_co_extracted-IsSame :
      (src : ℕ) (rest : List (ℕ × Text)) (db : Db F)
      → IsSound db
      → In scope db src
      → All (λ x. In scope db x.0) rest
      → IsSame db (link_co_extracted fl src rest db)
  unfolding link_co_extracted
  link_co_extracted-IsSame src [] db h hs a = record { sound = h; memories = refl; turns = refl }
  link_co_extracted-IsSame src ((dst, t) ∷ rest) db h hs a =
      let e = insert_edge-IsSame fl scope src dst "co_extracted" (fl.decimal 7 1) db h hs a.0 in
      IsSame-trans db _ _ e (
        link_co_extracted-IsSame src rest _ e.sound (keep scope db _ src e hs)
          (keep-All (λ x. x.0) scope db _ rest e a.1))

  link_peers-IsSame :
      (src : ℕ) (peers : List ℕ) (db : Db F)
      → IsSound db
      → In scope db src
      → All (In scope db) peers
      → IsSame db (link_peers fl src peers db)
  unfolding link_peers
  link_peers-IsSame src [] db h hs a = record { sound = h; memories = refl; turns = refl }
  link_peers-IsSame src (peer ∷ peers) db h hs a =
      let w = fl.decimal 5 1 in
      let e1 = insert_edge-IsSame fl scope src peer "same_subject" w db h hs a.0 in
      let e2 =
        insert_edge-IsSame fl scope peer src "same_subject" w _ e1.sound
          (keep scope db _ peer e1 a.0) (keep scope db _ src e1 hs) in
      let e = IsSame-trans db _ _ e1 e2 in
      IsSame-trans db _ _ e (
        link_peers-IsSame src peers _ e.sound (keep scope db _ src e hs)
          (keep-All (λ x. x) scope db _ peers e a.1))

  link_memories-IsSame :
      (inserted rest : List (ℕ × Text)) (db : Db F)
      → IsSound db
      → All (λ x. In scope db x.0) inserted
      → All (λ x. In scope db x.0) rest
      → IsSame db (link_memories fl scope inserted rest db)
  unfolding link_memories
  link_memories-IsSame inserted [] db h a r = record { sound = h; memories = refl; turns = refl }
  link_memories-IsSame inserted ((src, subject) ∷ rest) db h a r =
      let db1 = link_co_extracted fl src inserted db in
      let e1 = link_co_extracted-IsSame src inserted db h r.0 a in
      let e2 =
        link_peers-IsSame src (active_memories_with_subject scope subject src db1) db1 e1.sound
          (keep scope db db1 src e1 r.0)
          (active_memories_with_subject-In scope subject src db1 e1.sound) in
      let e = IsSame-trans db _ _ e1 e2 in
      IsSame-trans db _ _ e (
        link_memories-IsSame inserted rest _ e.sound (keep-All (λ x. x.0) scope db _ inserted e a)
          (keep-All (λ x. x.0) scope db _ rest e r.1))

module _ {F : Type 0} (fl : Floats F) where
  pub insert_turn-IsSound :
      (payload : TurnIn F) (embedding : Option (List F)) (db : Db F)
      → IsSound db
      → IsSound (insert_turn fl db.supply payload embedding (record db { supply = db.supply + 1 }))
        × (lookup db.supply (
              turn_scopes
                (insert_turn fl db.supply payload embedding
                  (record db { supply = db.supply + 1 })).turns)
            ≡ some (scope_for payload.user_id payload.session_id))
  unfolding insert_turn
  insert_turn-IsSound payload embedding db h =
      let fresh =
        lookup-none_of_Below db.supply db.supply (turn_scopes db.turns) h.turns_below
          (omega arith) in
      (
        add_turn-IsSound (record db { supply = db.supply + 1 }) (draw-IsSound db h) _ (omega arith)
            fresh,
        subst (λ d. lookup db.supply d ≡ some (scope_for payload.user_id payload.session_id))
            (sym (map-append _ db.turns _))
            (lookup-append_fresh (turn_scopes db.turns) db.supply _ fresh),
      )

  -- For every turn, its embedding and its candidates, and every order in which the tables are read:
  -- if in the tables every reference (a memory's source turn and the memory that it supersedes, a
  -- mention, an edge) leads to a row of the same scope and no identifier is taken twice, then that
  -- is so after the transaction of POST /turns.
  pub ingest_turn-IsSound :
      (sc : Scan (Memory F)) (now : Datetime) (payload : TurnIn F)
      (turn_embedding : Option (List F)) (candidates : List (MemoryCandidate F × Option (List F)))
      (db : Db F)
      → IsSound db
      → IsSound (ingest_turn fl sc now payload turn_embedding candidates db)
  unfolding ingest_turn
  ingest_turn-IsSound sc now payload turn_embedding candidates db h =
      let scope = scope_for payload.user_id payload.session_id in
      let start = insert_turn-IsSound payload turn_embedding db h in
      let b =
        ingest_candidates-IsBatch fl now scope payload.session_id db.supply sc candidates _
          (record { sound = start.0; turn = start.1; inserted = tt }) in
      (link_memories-IsSame fl scope _ _ _ b.sound b.inserted b.inserted).sound
