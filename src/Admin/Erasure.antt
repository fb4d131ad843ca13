-- ===== src/Admin/Erasure.antt =====
-- Nothing of a deleted user or session remains.
use higgsfield_memory_servic.Prelude.{
  Bool, true, false, not, ◌≡◌, refl, sym, List, [], ◌∷◌, some, map, arith, ◌==◌, nat_eq, list_eq,
  option_eq, All, All-mono, All-map, All-filter, filter,
}
use higgsfield_memory_servic.Text.{Text}
use higgsfield_memory_servic.Store.{Scope, user, session, Turn, Memory, Entity, Db, scope_eq}
use higgsfield_memory_servic.TurnRepo
use higgsfield_memory_servic.TurnRepo.{delete_turns, forget_turns}
use higgsfield_memory_servic.MemoryRepo
use higgsfield_memory_servic.MemoryRepo.{
  Scan, delete_memories, delete_entities, forget_priors, affected_scope_keys, recompute_active,
  set_inactive, set_active, activate_first, rows_about,
}
use higgsfield_memory_servic.Admin.{recompute_all, delete_session, delete_user}

-- No element passes the test.
abbrev pub NoneOf : {A : Type 0} → (A → Bool) → List A → Type 0
NoneOf p = All (λ x. p x ≡ false)

NoneOf-filter : {A : Type 0} (p : A → Bool) (xs : List A) → NoneOf p (filter (λ x. not (p x)) xs)
NoneOf-filter p xs = All-mono _ _ (λ x h. unless (p x) h) _ (All-filter (λ x. not (p x)) xs)
  where
    unless : (b : Bool) → not b ≡ true → b ≡ false
    unless true h = sym h
    unless false h = refl

-- What is left of a user or a session: no turn, no memory, no entity that the tests pick.
pub record IsErased {F : Type 0} (turn : Turn F → Bool) (memory : Memory F → Bool)
    (entity : Entity → Bool) (db : Db F) : Type 0 where
  pub turns : NoneOf turn db.turns
  pub memories : NoneOf memory db.memories
  pub entities : NoneOf entity db.entities

module _ {F : Type 0} where
  -- For every user and all tables: after the user is deleted, no turn has the user's id, and no
  -- memory and no entity is of the user's scope.
  pub delete_user-IsErased :
      (user_id : Text) (db : Db F)
      → IsErased
          (λ t. t.user_id == some user_id)
          (λ m. m.scope == user user_id)
          (λ e. e.scope == user user_id)
          (delete_user user_id db)
  unfolding delete_user TurnRepo.delete_by_user MemoryRepo.delete_by_user delete_turns
      delete_memories delete_entities
  delete_user-IsErased user_id db = record {
    turns = NoneOf-filter (λ (t : Turn F). t.user_id == some user_id) db.turns;
    memories = All-map _ (forget_turns _) _ (
        All-map _ (forget_priors _) _
          (NoneOf-filter (λ (m : Memory F). m.scope == user user_id) db.memories));
    entities = NoneOf-filter (λ (e : Entity). e.scope == user user_id) db.entities;
  }

  abbrev of_session : Text → Memory F → Bool
  of_session session_id m = m.source_session == some session_id

  NoneOf-update :
      (f : Memory F → Memory F)
      → ((m : Memory F) → (f m).source_session ≡ m.source_session)
      → (session_id : Text) (ms : List (Memory F)) → NoneOf (of_session session_id) ms
      → NoneOf (of_session session_id) (map f ms)
  NoneOf-update f same session_id ms h =
      All-map (λ m. of_session session_id m ≡ false) f ms
        (All-mono (λ m. of_session session_id m ≡ false) (λ m. of_session session_id (f m) ≡ false)
          (λ m n. rw (same m) n) ms h)

  recompute_all-IsErased :
      (sc : Scan (Memory F)) (session_id : Text) (affected : List (Scope × Text)) (db : Db F)
      → IsErased
          (λ t. t.session_id == session_id)
          (of_session session_id)
          (λ e. e.scope == session session_id)
          db
      → IsErased
          (λ t. t.session_id == session_id)
          (of_session session_id)
          (λ e. e.scope == session session_id)
          (recompute_all sc affected db)
  unfolding recompute_all recompute_active
  recompute_all-IsErased sc session_id [] db h = h
  recompute_all-IsErased sc session_id ((scope, key) ∷ affected) db h =
      recompute_all-IsErased sc session_id affected _ record {
        turns = h.turns;
        memories = elect (rows_about sc scope key cleared);
        entities = h.entities;
      }
    where
      cleared : List (Memory F)
      cleared = map (set_inactive scope key) db.memories

      cleared-NoneOf : NoneOf (of_session session_id) cleared
      cleared-NoneOf =
          NoneOf-update (set_inactive scope key) (λ m. ground arith) session_id db.memories
            h.memories

      elect :
          (rows : List (Memory F)) → NoneOf (of_session session_id) (activate_first rows cleared)
      elect [] = cleared-NoneOf
      elect (r ∷ rows) =
          NoneOf-update (set_active r.id) (λ m. ground arith) session_id cleared cleared-NoneOf

  -- For every session, all tables and every order of the scans: after the session is deleted, no
  -- turn is of the session, no memory was extracted from it, and no entity is of its scope.
  pub delete_session-IsErased :
      (sc : Scan (Memory F)) (session_id : Text) (db : Db F)
      → IsErased
          (λ t. t.session_id == session_id)
          (λ m. m.source_session == some session_id)
          (λ e. e.scope == session session_id)
          (delete_session sc session_id db)
  unfolding delete_session TurnRepo.delete_by_session MemoryRepo.delete_by_session delete_turns
      delete_memories delete_entities
  delete_session-IsErased sc session_id db =
      recompute_all-IsErased sc session_id (affected_scope_keys session_id db) _ record {
        turns = NoneOf-filter (λ (t : Turn F). t.session_id == session_id) db.turns;
        memories =
            All-map _ (forget_turns _) _
              (All-map _ (forget_priors _) _ (NoneOf-filter (of_session session_id) db.memories));
        entities = NoneOf-filter (λ (e : Entity). e.scope == session session_id) db.entities;
      }
