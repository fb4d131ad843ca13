-- ===== src/Service.antt =====
-- The life of the service: the tables, from the empty ones on, under the three kinds of request that
-- write (src/memory_service/api/routes_turns.py, src/memory_service/api/routes_admin.py). Requests
-- write one after the other, each in its transaction.
pub mod Invariant
pub mod Forgetting
pub mod Bystanders
use higgsfield_memory_servic.Prelude.{Option, List}
use higgsfield_memory_servic.Text.{Text}
use higgsfield_memory_servic.Numbers.{Floats}
use higgsfield_memory_servic.Datetime.{Datetime}
use higgsfield_memory_servic.Models.{MemoryCandidate}
use higgsfield_memory_servic.Store.{Memory, Db, no_rows}
use higgsfield_memory_servic.TurnRepo.{TurnIn}
use higgsfield_memory_servic.MemoryRepo.{Scan}
use higgsfield_memory_servic.Ingest.{ingest_turn}
use higgsfield_memory_servic.Admin.{delete_session, delete_user}

-- One request. What the clients of the models return is the environment's choice.
pub data Step {F : Type 0} (fl : Floats F) : Db F → Db F → Type 0 where
  turn_posted :
      (sc : Scan (Memory F)) (now : Datetime) (payload : TurnIn F) (embedding : Option (List F))
      (candidates : List (MemoryCandidate F × Option (List F))) (db : Db F)
      → Step fl db (ingest_turn fl sc now payload embedding candidates db)
  session_deleted :
      (sc : Scan (Memory F)) (session_id : Text) (db : Db F)
      → Step fl db (delete_session sc session_id db)
  user_deleted : (user_id : Text) (db : Db F) → Step fl db (delete_user user_id db)

-- The tables that requests lead to.
pub data Reach {F : Type 0} (fl : Floats F) : Db F → Type 0 where
  start : Reach fl no_rows
  later : {db next : Db F} → Reach fl db → Step fl db next → Reach fl next
