-- ===== src/Admin/Isolation.antt =====
-- The two deletions keep every reference within one scope.
use higgsfield_memory_servic.Prelude.{ℕ, List, [], ◌∷◌, map, arith}
use higgsfield_memory_servic.Text.{Text}
use higgsfield_memory_servic.Store.{Scope, user, session, Memory, Db, scope_eq}
use higgsfield_memory_servic.Store.Sound.{IsSound, IsUpdate, update-IsSound}
use higgsfield_memory_servic.Store.Sound.Deletes.{
  delete_turns-IsSound, delete_memories-IsSound, delete_entities-IsSound,
}
use higgsfield_memory_servic.TurnRepo
use higgsfield_memory_servic.MemoryRepo
use higgsfield_memory_servic.MemoryRepo.{
  Scan, affected_scope_keys, delete_entities, recompute_active, set_inactive, set_active,
  activate_first, rows_about,
}
use higgsfield_memory_servic.Admin.{recompute_all, delete_session, delete_user}

module _ {F : Type 0} where
  set_inactive-IsUpdate : (scope : Scope) (key : Text) → IsUpdate {F = F} (set_inactive scope key)
  set_inactive-IsUpdate scope key = record {
    id = λ m. ground arith;
    scope = λ m. ground arith;
    supersedes = λ m. ground arith;
    source_turn = λ m. ground arith;
  }

  set_active-IsUpdate : (i : ℕ) → IsUpdate {F = F} (set_active i)
  set_active-IsUpdate i = record {
    id = λ m. ground arith;
    scope = λ m. ground arith;
    supersedes = λ m. ground arith;
    source_turn = λ m. ground arith;
  }

  recompute_active-IsSound :
      (sc : Scan (Memory F)) (scope : Scope) (key : Text) (db : Db F)
      → IsSound db
      → IsSound (recompute_active sc scope key db)
  unfolding recompute_active
  recompute_active-IsSound sc scope key db h = elect (rows_about sc scope key cleared.memories)
    where
      cleared : Db F
      cleared = record db { memories = map (set_inactive scope key) db.memories }

      cleared-IsSound : IsSound cleared
      cleared-IsSound =
          update-IsSound (set_inactive scope key) (set_inactive-IsUpdate scope key) db h

      elect :
          (rows : List (Memory F))
          → IsSound (record db { memories = activate_first rows cleared.memories })
      elect [] = cleared-IsSound
      elect (r ∷ rows) =
          update-IsSound (set_active r.id) (set_active-IsUpdate r.id) cleared cleared-IsSound

  recompute_all-IsSound :
      (sc : Scan (Memory F)) (affected : List (Scope × Text)) (db : Db F)
      → IsSound db
      → IsSound (recompute_all sc affected db)
  unfolding recompute_all
  recompute_all-IsSound sc [] db h = h
  recompute_all-IsSound sc ((scope, key) ∷ affected) db h =
      recompute_all-IsSound sc affected _ (recompute_active-IsSound sc scope key db h)

  -- For every session and every order of the scans: if in the tables every reference leads to a row
  -- of the same scope and no identifier is taken twice, then that is so after the session is deleted;
  -- no reference to a deleted row is left.
  pub delete_session-IsSound :
      (sc : Scan (Memory F)) (session_id : Text) (db : Db F)
      → IsSound db
      → IsSound (delete_session sc session_id db)
  unfolding delete_session TurnRepo.delete_by_session MemoryRepo.delete_by_session
  delete_session-IsSound sc session_id db h =
      recompute_all-IsSound sc (affected_scope_keys session_id db) _ (
        delete_entities-IsSound _ (delete_turns-IsSound _ (delete_memories-IsSound db h _) _)
          (session session_id))

  -- For every user: if in the tables every reference leads to a row of the same scope and no
  -- identifier is taken twice, then that is so after the user is deleted; no reference to a deleted
  -- row is left.
  pub delete_user-IsSound :
      (user_id : Text) (db : Db F) → IsSound db → IsSound (delete_user user_id db)
  unfolding delete_user TurnRepo.delete_by_user MemoryRepo.delete_by_user
  delete_user-IsSound user_id db h =
      delete_turns-IsSound _
        (delete_memories-IsSound _ (delete_entities-IsSound db h (user user_id)) _) _
