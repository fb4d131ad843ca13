-- ===== src/Search/Scoped.antt =====
-- A search over the tables shows what is stored in the scope of its request, and nothing else.
use higgsfield_memory_servic.Prelude.{
  ℕ, ◌≤◌, Bool, true, false, not, ◌&&◌, ◌||◌, ◌≡◌, Option, some, List, [], ◌==◌, nat_eq, list_eq,
  any, length, All,
}
use higgsfield_memory_servic.Text.{Text}
use higgsfield_memory_servic.Numbers.{Floats, IsOrdered}
use higgsfield_memory_servic.Datetime.{Datetime}
use higgsfield_memory_servic.Candidate.{Candidate}
use higgsfield_memory_servic.Format.{or_empty}
use higgsfield_memory_servic.Store.{Scope, user, session, Turn, Memory, Db, scope_eq}
use higgsfield_memory_servic.MemoryRepo.{Scan}
use higgsfield_memory_servic.Retrievers.{Ranking}
use higgsfield_memory_servic.Search.{SearchIn, SearchResult}
use higgsfield_memory_servic.Recall.Database.{retrieve}

module _ {F : Type 0} where
  abbrev pub turn_shows : Scope → Text → Text → Turn F → Bool
  turn_shows scope content session_id t =
      t.scope == scope && t.full_text == content && t.session_id == session_id

  abbrev pub memory_shows : Scope → Text → Text → Memory F → Bool
  memory_shows scope content session_id m =
      m.scope == scope && m.active && m.value == content && or_empty m.source_session == session_id

  -- Whether a turn of the scope, or an active memory of the scope, has the content and the session.
  abbrev pub is_row : Db F → Scope → Text → Text → Bool
  is_row db scope content session_id =
      any (turn_shows scope content session_id) db.turns
      || any (memory_shows scope content session_id) db.memories

  abbrev Row : Db F → Scope → Candidate F → Type 0
  Row db scope c = is_row db scope c.content (or_empty c.session_id) ≡ true

  module _ (db : Db F) (scope : Scope) (limit : ℕ) where
    abbrev turn_listed : Turn F → Bool
    turn_listed t = any (turn_shows t.scope t.full_text t.session_id) db.turns

    abbrev memory_listed : Memory F → Bool
    memory_listed m =
        not m.active || any (memory_shows m.scope m.value (or_empty m.source_session)) db.memories

module _ {F : Type 0} (fl : Floats F) (order : IsOrdered fl) (rk : Ranking F)
    (turn_scan : Scan (Turn F)) (memory_scan : Scan (Memory F)) (embed : Text → Option (List F))
    (now : Datetime) (rrf_k : ℕ) (db : Db F) (payload : SearchIn) where
  -- `run` is the four retrievers over the tables.
  abbrev run : Scope → List (Option (List (Candidate F)))
  run scope = retrieve fl rk turn_scan memory_scan embed payload.limit db scope payload.query

  -- Results that are each of a row of the scope, and no more of them than were asked for.
  pub record IsOf (scope : Scope) (result : Option (List (SearchResult F))) : Type 0 where
    pub results : List (SearchResult F)
    pub returned : result ≡ some results
    pub rows : All (λ r. is_row db scope r.content r.session_id ≡ true) results
    pub few : length results ≤ payload.limit

  -- By whether the request names no user, and no session.
  abbrev pub Shown : Bool → Bool → Option (List (SearchResult F)) → Type 0
  Shown true true result = result ≡ some []
  Shown true false result = IsOf (session (or_empty payload.session_id)) result
  Shown false no_session result = IsOf (user (or_empty payload.user_id)) result
