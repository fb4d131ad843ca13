-- ===== src/Tests/Endpoints.antt =====
-- The endpoints as a whole at concrete inputs.
use higgsfield_memory_servic.Prelude.{
  ℕ, ◌≡◌, ◌≢◌, refl, map, arith, list_eq, none, some, [], ◌∷◌, ◌==◌, nat_eq, if◌then◌else◌,
}
use higgsfield_memory_servic.Numbers.{millionths}
use higgsfield_memory_servic.Ingest.{ingest_turn}
use higgsfield_memory_servic.Service.Bystanders.{list_by_user-delete_user, list_by_user-ingest_turn}
use higgsfield_memory_servic.Text.{Text, codes}
use higgsfield_memory_servic.MemoryRepo.Queries.{MemoryOut, list_by_user}
use higgsfield_memory_servic.Admin.{delete_user}
use higgsfield_memory_servic.TurnRepo.{TurnIn}
use higgsfield_memory_servic.Tests.{noon}
use higgsfield_memory_servic.Tests.Tables.{any_order, munich, turn_in}
use higgsfield_memory_servic.Tests.Reads.{posted, posted-Reach}

-- The identifier that is looked up.
abbrev first : ℕ
first = 0

-- The user of the turn that was posted, and another.
abbrev first_user : Text
first_user = codes "u1"

abbrev second_user : Text
second_user = codes "u2"

-- One memory is listed for the user of the turn.
one_listed :
    map (λ (m : MemoryOut ℕ). m.value) (list_by_user first_user posted)
    ≡ codes "Lives in Munich" ∷ []
unfolding list_by_user ingest_turn
one_listed = refl

list_by_user-delete_user_example :
    list_by_user first_user (delete_user second_user posted)
    ≡ (if second_user == first_user then [] else list_by_user first_user posted)
list_by_user-delete_user_example =
    list_by_user-delete_user millionths posted-Reach second_user first_user

-- A turn of the other user.
abbrev second_turn : TurnIn ℕ
second_turn = record turn_in { user_id = some second_user }

other_sender : second_turn.user_id ≢ some first_user
other_sender e = ground arith

list_by_user-ingest_turn_example :
    list_by_user first_user
      (ingest_turn millionths any_order noon second_turn none ((munich, none) ∷ []) posted)
    ≡ list_by_user first_user posted
list_by_user-ingest_turn_example =
    list_by_user-ingest_turn millionths posted-Reach any_order noon second_turn none
      ((munich, none) ∷ []) first_user other_sender
