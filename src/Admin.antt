-- ===== src/Admin.antt =====
-- src/memory_service/api/routes_admin.py: the two deletions, each one transaction.
pub mod Isolation
pub mod Erasure
use higgsfield_memory_servic.Prelude.{List, [], ◌∷◌}
use higgsfield_memory_servic.Text.{Text}
use higgsfield_memory_servic.Store.{Scope, user, session, Memory, Db}
use higgsfield_memory_servic.TurnRepo
use higgsfield_memory_servic.MemoryRepo
use higgsfield_memory_servic.MemoryRepo.{
  Scan, affected_scope_keys, delete_entities, recompute_active,
}

module _ {F : Type 0} where
  -- `for scope_type, scope_id, key in affected`
  unfoldable pub recompute_all : Scan (Memory F) → List (Scope × Text) → Db F → Db F
  unfolding recompute_active
  recompute_all sc [] db = db
  recompute_all sc ((scope, key) ∷ affected) db =
      recompute_all sc affected (recompute_active sc scope key db)

  unfoldable pub delete_session : Scan (Memory F) → Text → Db F → Db F
  unfolding recompute_all affected_scope_keys delete_entities MemoryRepo.delete_by_session
      TurnRepo.delete_by_session
  delete_session sc session_id db =
      let affected = affected_scope_keys session_id db in
      recompute_all sc affected (
        delete_entities (session session_id)
          (TurnRepo.delete_by_session session_id (MemoryRepo.delete_by_session session_id db)))

  unfoldable pub delete_user : Text → Db F → Db F
  unfolding delete_entities MemoryRepo.delete_by_user TurnRepo.delete_by_user
  delete_user user_id db =
      TurnRepo.delete_by_user user_id
        (MemoryRepo.delete_by_user user_id (delete_entities (user user_id) db))
