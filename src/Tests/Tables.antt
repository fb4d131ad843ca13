-- ===== src/Tests/Tables.antt =====
-- Ingestion and deletion at concrete inputs.
use higgsfield_memory_servic.Prelude.{
  ℕ, String, Bool, true, false, ◌&&◌, ◌≡◌, refl, none, some, [], ◌∷◌, arith, ◌==◌, nat_eq,
  string_eq, pair_eq, list_eq, option_eq, any, count,
}
use higgsfield_memory_servic.Text.{codes}
use higgsfield_memory_servic.Numbers.{millionths}
use higgsfield_memory_servic.Dict.{lookup, NodupKeys}
use higgsfield_memory_servic.Models.{fact, MemoryCandidate, key, one}
use higgsfield_memory_servic.Taxonomy.{spec_for}
use higgsfield_memory_servic.Store.{user, session, Role, Memory, Db, no_rows, scope_eq}
use higgsfield_memory_servic.Store.Scopes.{memory_scopes}
use higgsfield_memory_servic.Store.Sound.{IsSound}
use higgsfield_memory_servic.TurnRepo.{TurnIn}
use higgsfield_memory_servic.MemoryRepo.{Scan, is_about, rows_about, recompute_active}
use higgsfield_memory_servic.MemoryRepo.Recompute.{recompute_active_one}
use higgsfield_memory_servic.Reconciler.{same_object, active_about, reconcile}
use higgsfield_memory_servic.Reconciler.Decisions.{is_current, IsReconciled, reconcile_lem}
use higgsfield_memory_servic.Ingest.{Batch, ingest_candidate, ingest_turn}
use higgsfield_memory_servic.Admin.{delete_session, delete_user}
use higgsfield_memory_servic.Admin.Isolation.{delete_session-IsSound, delete_user-IsSound}
use higgsfield_memory_servic.Admin.Erasure.{IsErased, delete_session-IsErased, delete_user-IsErased}
use higgsfield_memory_servic.Ingest.Current.{ingest_candidate_one}
use higgsfield_memory_servic.Ingest.Transaction.{ingest_turn-IsSound}
use higgsfield_memory_servic.Tests.{noon}

abbrev pub any_order : Scan (Memory ℕ)
any_order = record { scan = λ ms. ms; count-scan = λ p ms. refl }

abbrev lives_in : ℕ → String → Bool → Memory ℕ
lives_in id city active = record {
  id = id;
  scope = user (codes "u1");
  type = fact;
  subject = codes "user";
  predicate = codes "lives_in";
  object = codes city;
  value = codes city;
  raw_quote = none;
  confidence = 900000;
  source_session = some (codes "s1");
  source_turn = none;
  created_at = noon;
  updated_at = noon;
  supersedes = none;
  active = active;
  embedding = none;
}

-- Two cities, one of them current.
abbrev moved : Db ℕ
moved = record no_rows {
  memories = lives_in 0 "Paris" false ∷ lives_in 1 "Berlin" true ∷ [];
  supply = 2;
}

abbrev pub munich : MemoryCandidate ℕ
munich = record {
  type = fact;
  subject = codes "user";
  predicate = codes "lives_in";
  object = codes "Munich";
  value = codes "Lives in Munich";
  raw_quote = codes "I moved to Munich";
  confidence = 900000;
  entities = record { name = codes "Munich"; type = some (codes "city") } ∷ [];
}

reconcile_lem_example :
    IsReconciled
      (user (codes "u1"))
      munich
      moved.memories
      (reconcile any_order (user (codes "u1")) munich moved)
reconcile_lem_example = reconcile_lem any_order (user (codes "u1")) munich moved

abbrev batch : Batch ℕ
batch = record { db = moved; inserted = []; superseded_memories = 0 }

lives_in_one : (spec_for munich.predicate).multiplicity ≡ one
unfolding spec_for
lives_in_one = refl

munich_new :
    any
      (same_object munich.object)
      (active_about any_order (user (codes "u1")) (key munich) moved.memories)
    ≡ false
unfolding same_object key rows_about
munich_new = refl

ingest_candidate_one_example :
    count
      (is_current (user (codes "u1")) (key munich))
      (ingest_candidate millionths noon
        (user (codes "u1"))
        (codes "s1")
        9
        any_order
        munich
        none
        batch).db.memories
    ≡ 1
ingest_candidate_one_example =
    ingest_candidate_one millionths noon (user (codes "u1")) (codes "s1") 9 munich none any_order
      batch lives_in_one munich_new

moved_ids : NodupKeys (memory_scopes moved.memories)
unfolding lookup nat_eq
moved_ids = (refl, (refl, tt))

about_moved : any (is_about (user (codes "u1")) (key munich)) moved.memories ≡ true
unfolding key scope_eq list_eq nat_eq
about_moved = refl

recompute_active_one_example :
    count
      (λ m. is_about (user (codes "u1")) (key munich) m && m.active)
      (recompute_active any_order (user (codes "u1")) (key munich) moved).memories
    ≡ 1
recompute_active_one_example =
    recompute_active_one any_order (user (codes "u1")) (key munich) moved moved_ids about_moved

abbrev pub turn_in : TurnIn ℕ
turn_in = record {
  session_id = codes "s1";
  user_id = some (codes "u1");
  messages = record { role = Role.user; content = codes "I moved to Munich"; name = none } ∷ [];
  timestamp = noon;
  metadata = [];
}

moved-IsSound : IsSound moved
unfolding lookup
moved-IsSound = record {
  turn_ids = tt;
  memory_ids = moved_ids;
  entity_ids = tt;
  turns_below = tt;
  memories_below = (omega arith, (omega arith, tt));
  entities_below = tt;
  rows = (record { prior = tt; source = tt }, (record { prior = tt; source = tt }, tt));
  mentions = tt;
  edges = tt;
}

ingest_turn-IsSound_example : IsSound (
    ingest_turn millionths any_order noon turn_in none ((munich, none) ∷ (munich, none) ∷ []) moved)
ingest_turn-IsSound_example =
    ingest_turn-IsSound millionths any_order noon turn_in none
      ((munich, none) ∷ (munich, none) ∷ []) moved moved-IsSound

delete_session-IsSound_example : IsSound (delete_session any_order (codes "s1") moved)
delete_session-IsSound_example = delete_session-IsSound any_order (codes "s1") moved moved-IsSound

delete_user-IsSound_example : IsSound (delete_user (codes "u1") moved)
delete_user-IsSound_example = delete_user-IsSound (codes "u1") moved moved-IsSound

delete_session-IsErased_example :
    IsErased
      (λ t. t.session_id == codes "s1")
      (λ m. m.source_session == some (codes "s1"))
      (λ e. e.scope == session (codes "s1"))
      (delete_session any_order (codes "s1") moved)
delete_session-IsErased_example = delete_session-IsErased any_order (codes "s1") moved

delete_user-IsErased_example :
    IsErased
      (λ t. t.user_id == some (codes "u1"))
      (λ m. m.scope == user (codes "u1"))
      (λ e. e.scope == user (codes "u1"))
      (delete_user (codes "u1") moved)
delete_user-IsErased_example = delete_user-IsErased (codes "u1") moved
