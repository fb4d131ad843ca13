-- ===== src/Service/Invariant.antt =====
-- What holds of the tables after any requests.
use higgsfield_memory_servic.Prelude.{
  ◌≡◌, refl, sym, subst, List, [], ◌∷◌, All, All-append, All-filter_of_All, not, ◌==◌, nat_eq,
  list_eq, option_eq,
}
use higgsfield_memory_servic.Text.{Text}
use higgsfield_memory_servic.Numbers.{Floats}
use higgsfield_memory_servic.Store.{Scope, session, Turn, Memory, Db, no_rows}
use higgsfield_memory_servic.Store.Sound.{IsSound}
use higgsfield_memory_servic.TurnRepo
use higgsfield_memory_servic.TurnRepo.{scope_for, delete_turns}
use higgsfield_memory_servic.MemoryRepo
use higgsfield_memory_servic.MemoryRepo.{
  Scan, affected_scope_keys, delete_memories, delete_entities, recompute_active,
}
use higgsfield_memory_servic.Ingest.Transaction.{ingest_turn-IsSound}
use higgsfield_memory_servic.Ingest.Turns.{turn_row, ingest_turn-turns}
use higgsfield_memory_servic.Admin.{recompute_all, delete_session, delete_user}
use higgsfield_memory_servic.Admin.Isolation.{delete_session-IsSound, delete_user-IsSound}
use higgsfield_memory_servic.Service.{
  Step, Reach, turn_posted, session_deleted, user_deleted, start, later,
}

-- A turn is in the scope of its user, or of its session if it has none.
abbrev pub IsFiled : {F : Type 0} → Turn F → Type 0
IsFiled t = t.scope ≡ scope_for t.user_id t.session_id

pub record IsState {F : Type 0} (db : Db F) : Type 0 where
  pub sound : IsSound db
  pub filed : All IsFiled db.turns

module _ {F : Type 0} where
  no_rows-IsState : IsState {F = F} no_rows
  no_rows-IsState = record {
    sound = record {
      turn_ids = tt;
      memory_ids = tt;
      entity_ids = tt;
      turns_below = tt;
      memories_below = tt;
      entities_below = tt;
      rows = tt;
      mentions = tt;
      edges = tt;
    };
    filed = tt;
  }

  recompute_all-turns :
      (sc : Scan (Memory F)) (affected : List (Scope × Text)) (db : Db F)
      → (recompute_all sc affected db).turns ≡ db.turns
  unfolding recompute_all recompute_active
  recompute_all-turns sc [] db = refl
  recompute_all-turns sc ((scope, key) ∷ affected) db = recompute_all-turns sc affected _

  delete_session-IsFiled :
      (sc : Scan (Memory F)) (session_id : Text) (db : Db F)
      → All IsFiled db.turns
      → All IsFiled (delete_session sc session_id db).turns
  unfolding delete_session TurnRepo.delete_by_session MemoryRepo.delete_by_session delete_turns
      delete_memories delete_entities
  delete_session-IsFiled sc session_id db h =
      let affected = affected_scope_keys session_id db in
      let gone =
        delete_entities (session session_id)
          (TurnRepo.delete_by_session session_id (MemoryRepo.delete_by_session session_id db)) in
      subst (All IsFiled) (sym (recompute_all-turns sc affected gone))
        (All-filter_of_All IsFiled (λ t. not (t.session_id == session_id)) db.turns h)

  delete_user-IsFiled :
      (user_id : Text) (db : Db F)
      → All IsFiled db.turns
      → All IsFiled (delete_user user_id db).turns
  unfolding delete_user TurnRepo.delete_by_user MemoryRepo.delete_by_user delete_turns
      delete_memories delete_entities
  delete_user-IsFiled user_id db h = All-filter_of_All IsFiled _ db.turns h

module _ {F : Type 0} (fl : Floats F) where
  Step-IsState : {db next : Db F} → Step fl db next → IsState db → IsState next
  Step-IsState (turn_posted sc now payload embedding candidates db) h = record {
    sound = ingest_turn-IsSound fl sc now payload embedding candidates db h.sound;
    filed =
        subst (All IsFiled) (sym (ingest_turn-turns fl sc now payload embedding candidates db)) (
          All-append IsFiled db.turns (turn_row fl db.supply payload embedding ∷ []) h.filed
            (refl, tt));
  }
  Step-IsState (session_deleted sc session_id db) h = record {
    sound = delete_session-IsSound sc session_id db h.sound;
    filed = delete_session-IsFiled sc session_id db h.filed;
  }
  Step-IsState (user_deleted user_id db) h = record {
    sound = delete_user-IsSound user_id db h.sound;
    filed = delete_user-IsFiled user_id db h.filed;
  }

  -- Whatever requests have come, in whatever order: no identifier is taken twice, every reference
  -- leads to a row of the same scope, and every turn is in the scope of its user, or of its session
  -- if it has no user.
  pub Reach-IsState : {db : Db F} → Reach fl db → IsState db
  Reach-IsState start = no_rows-IsState
  Reach-IsState (later r step) = Step-IsState step (Reach-IsState r)
