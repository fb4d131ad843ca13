-- ===== src/Store/Sound/Rows.antt =====
-- What soundness says of a single row, as a fact and as a test.
use higgsfield_memory_servic.Prelude.{
  ℕ, Bool, true, ◌&&◌, ◌≡◌, refl, Option, none, some, arith, ◌==◌, nat_eq, option_eq, All, All-mono,
  All-both, All_of_map,
}
use higgsfield_memory_servic.Dict.{lookup}
use higgsfield_memory_servic.Store.{Scope, Turn, Memory, Db, scope_eq}
use higgsfield_memory_servic.Store.Scopes.{Scopes, turn_scopes, memory_scopes, RefersTo, All-lookup}
use higgsfield_memory_servic.Store.Sound.{IsPlaced, IsSound}

abbrev refers : Scopes → Option ℕ → Scope → Bool
refers d none s = true
refers d (some k) s = lookup k d == some s

refers_complete : (d : Scopes) (k : Option ℕ) (s : Scope) → RefersTo d k s → refers d k s ≡ true
refers_complete d none s h = refl
refers_complete d (some k) s h = ground (arith, h)

refers_sound : (d : Scopes) (k : Option ℕ) (s : Scope) → refers d k s ≡ true → RefersTo d k s
refers_sound d none s h = tt
refers_sound d (some k) s h = ground (arith, h)

module _ {F : Type 0} (db : Db F) where
  -- The identifier leads to the row's scope.
  abbrev pub IsTurn : Turn F → Type 0
  IsTurn t = lookup t.id (turn_scopes db.turns) ≡ some t.scope

  abbrev pub is_turn : Turn F → Bool
  is_turn t = lookup t.id (turn_scopes db.turns) == some t.scope

  -- The identifier leads to the row's scope, and so does the source turn.
  pub record IsMemory (m : Memory F) : Type 0 where
    pub own : lookup m.id (memory_scopes db.memories) ≡ some m.scope
    pub source : RefersTo (turn_scopes db.turns) m.source_turn m.scope

  abbrev pub is_memory_row : Memory F → Bool
  is_memory_row m =
      lookup m.id (memory_scopes db.memories) == some m.scope
      && refers (turn_scopes db.turns) m.source_turn m.scope

  pub IsTurn-complete : (t : Turn F) → IsTurn t → is_turn t ≡ true
  IsTurn-complete t h = ground (arith, h)

  pub IsTurn-sound : (t : Turn F) → is_turn t ≡ true → IsTurn t
  IsTurn-sound t h = ground (arith, h)

  pub IsMemory_complete : (m : Memory F) → IsMemory m → is_memory_row m ≡ true
  IsMemory_complete m h =
      ground (arith, h.own, refers_complete (turn_scopes db.turns) m.source_turn m.scope h.source)

  pub IsMemory_sound : (m : Memory F) → is_memory_row m ≡ true → IsMemory m
  IsMemory_sound m h = record {
    own = ground (arith, h);
    source = refers_sound (turn_scopes db.turns) m.source_turn m.scope (ground (arith, h));
  }

  pub turns-IsTurn : IsSound db → All IsTurn db.turns
  turns-IsTurn h =
      All_of_map _ (λ (t : Turn F). (t.id, t.scope)) db.turns
        (All-lookup (turn_scopes db.turns) h.turn_ids)

  pub memories-IsMemory : IsSound db → All IsMemory db.memories
  memories-IsMemory h =
      All-mono _ IsMemory (λ m p. record { own = p.0; source = p.1.source }) db.memories
        (All-both _ (IsPlaced (turn_scopes db.turns) (memory_scopes db.memories)) db.memories
          (All_of_map _ (λ (m : Memory F). (m.id, m.scope)) db.memories
            (All-lookup (memory_scopes db.memories) h.memory_ids))
          h.rows)
