-- ===== src/TurnRepo.antt =====
-- src/memory_service/repo/turn_repo.py
use higgsfield_memory_servic.Prelude.{
  ℕ, Bool, not, Option, none, some, List, [], ◌∷◌, ◌++◌, map, ◌==◌, nat_eq, list_eq, option_eq,
  if◌then◌else◌, filter, contains,
}
use higgsfield_memory_servic.Text.{Text, codes, is_empty, strip, join}
use higgsfield_memory_servic.Numbers.{Floats}
use higgsfield_memory_servic.Datetime.{Datetime}
use higgsfield_memory_servic.Candidate.{Metadata}
use higgsfield_memory_servic.Store.{
  Scope, user, session, Role, assistant, tool, system, Message, Turn, Memory, Db, scope_eq,
}

-- `TurnIn` of src/memory_service/schemas/turns.py
pub record TurnIn (F : Type 0) : Type 0 where
  pub session_id : Text
  pub user_id : Option Text
  pub messages : List Message
  pub timestamp : Datetime
  pub metadata : Metadata F

-- An empty user id counts as none.
unfoldable pub scope_for : Option Text → Text → Scope
scope_for none session_id = session session_id
scope_for (some user_id) session_id = if is_empty user_id then session session_id else user user_id

abbrev pub role_name : Role → Text
role_name Role.user = codes "user"
role_name assistant = codes "assistant"
role_name tool = codes "tool"
role_name system = codes "system"

-- `f"{role}({name})" if name else role`
abbrev prefix : Role → Option Text → Text
prefix role none = role_name role
prefix role (some name) =
    if is_empty name then role_name role else role_name role ++ (codes "(" ++ (name ++ codes ")"))

abbrev rendered : Message → Text
rendered m = prefix m.role m.name ++ (codes ": " ++ strip m.content)

unfoldable pub flatten_messages : List Message → Text
unfolding strip join
flatten_messages messages = join (10 ∷ []) (map rendered messages)

-- ON DELETE SET NULL
abbrev pub null_if_gone : List ℕ → Option ℕ → Option ℕ
null_if_gone gone none = none
null_if_gone gone (some k) = if contains gone k then none else some k

module _ {F : Type 0} (fl : Floats F) where
  -- The embedding as its column keeps it: it is written as text.
  abbrev pub vector_column : Option (List F) → Option (List F)
  vector_column none = none
  vector_column (some embedding) = some (map fl.vector_element embedding)

  unfoldable pub insert_turn : ℕ → TurnIn F → Option (List F) → Db F → Db F
  unfolding scope_for flatten_messages
  insert_turn turn_id payload embedding db =
      let turn : Turn F = record {
        id = turn_id;
        session_id = payload.session_id;
        user_id = payload.user_id;
        scope = scope_for payload.user_id payload.session_id;
        messages = payload.messages;
        full_text = flatten_messages payload.messages;
        timestamp = payload.timestamp;
        metadata = payload.metadata;
        embedding = vector_column embedding;
      } in
      record db { turns = db.turns ++ (turn ∷ []) }

module _ {F : Type 0} where
  -- `memories.source_turn` is ON DELETE SET NULL.
  abbrev pub forget_turns : List ℕ → Memory F → Memory F
  forget_turns gone m = record m { source_turn = null_if_gone gone m.source_turn }

  -- DELETE FROM turns, by a condition.
  unfoldable pub delete_turns : (Turn F → Bool) → Db F → Db F
  unfolding nat_eq
  delete_turns p db =
      let gone = map (λ t. t.id) (filter p db.turns) in
      record db {
        turns = filter (λ t. not (p t)) db.turns;
        memories = map (forget_turns gone) db.memories;
      }

  unfoldable pub delete_by_session : Text → Db F → Db F
  unfolding delete_turns list_eq
  delete_by_session session_id = delete_turns (λ t. t.session_id == session_id)

  unfoldable pub delete_by_user : Text → Db F → Db F
  unfolding delete_turns list_eq option_eq
  delete_by_user user_id = delete_turns (λ t. t.user_id == some user_id)
