-- ===== src/Ingest/Route.antt =====
-- src/memory_service/api/routes_turns.py as a whole: the turn is embedded, its candidates are extracted
-- and embedded, and then one transaction stores everything.
pub mod Posted
use higgsfield_memory_servic.Prelude.{
  ℕ, suc, Bool, true, false, ◌&&◌, not, ◌≡◌, refl, ap, Option, none, some, List, [], ◌∷◌, map,
  if◌then◌else◌, length,
}
use higgsfield_memory_servic.Text.{Text, is_empty}
use higgsfield_memory_servic.Numbers.{Floats}
use higgsfield_memory_servic.Datetime.{Datetime}
use higgsfield_memory_servic.Json.{Json, Outcome, ok, malformed, raised, Python}
use higgsfield_memory_servic.Models.{MemoryCandidate}
use higgsfield_memory_servic.Embedding.{Attempt, embed, embed_batch, nones}
use higgsfield_memory_servic.Extraction.Service.{extract}
use higgsfield_memory_servic.Store.{Memory, Db}
use higgsfield_memory_servic.Store.Sound.{IsSound}
use higgsfield_memory_servic.TurnRepo.{TurnIn, flatten_messages}
use higgsfield_memory_servic.MemoryRepo.{Scan}
use higgsfield_memory_servic.Ingest.{ingest_turn}
use higgsfield_memory_servic.Ingest.Transaction.{ingest_turn-IsSound}

-- The clients of a request: whether there is a key, what the endpoints answer, and whether Postgres
-- refuses a statement of the transaction (a NUL character in a text, a vector of another dimension,
-- a violated constraint), so that all of it is rolled back.
pub record Clients (F : Type 0) : Type 0 where
  pub llm_enabled : Bool
  pub embed_one : ℕ → Text → Attempt (List F)
  pub embed_many : List Text → Option (List (List F))
  pub chat : Text → Option (Json F)
  pub refuses : Option (List F) → List (MemoryCandidate F × Option (List F)) → Db F → Bool

-- `zip(candidates, memory_vecs, strict=True)`, `none` for the ValueError
unfoldable pub zip_strict : {A B : Type 0} → List A → List B → Option (List (A × B))
zip_strict [] [] = some []
zip_strict (x ∷ xs) (y ∷ ys) =
    let rest = zip_strict xs ys in elim rest [ none ↦ none | some zs ↦ some ((x, y) ∷ zs) ]
zip_strict _ _ = none

module _ {F : Type 0} (fl : Floats F) (py : Python F) (clients : Clients F) where
  abbrev memory_vecs : List (MemoryCandidate F) → List (Option (List F))
  memory_vecs candidates =
      if not (is_empty candidates) && clients.llm_enabled
      then embed_batch clients.llm_enabled clients.embed_many (map (λ c. c.value) candidates)
      else nones (length candidates)

  -- `_embed_turn`
  abbrev pub turn_embedding : TurnIn F → Option (List F)
  turn_embedding payload =
      embed clients.llm_enabled clients.embed_one (flatten_messages payload.messages)

  module _ (sc : Scan (Memory F)) (now : Datetime) (payload : TurnIn F) where
    abbrev committed :
        Db F → Option (List F) → List (MemoryCandidate F × Option (List F)) → Option (Db F)
    committed db embedding pairs =
        if clients.refuses embedding pairs db
        then none
        else some (ingest_turn fl sc now payload embedding pairs db)

    abbrev stored : Db F → Option (List (MemoryCandidate F × Option (List F))) → Option (Db F)
    stored db none = none
    stored db (some pairs) = committed db (turn_embedding payload) pairs

    abbrev with_candidates : Db F → Outcome (List (MemoryCandidate F)) → Option (Db F)
    with_candidates db (ok candidates) = stored db (zip_strict candidates (memory_vecs candidates))
    with_candidates db _ = none

    -- `none` is an error, before the transaction or in it: nothing is written.
    unfoldable pub post_turn : Db F → Option (Db F)
    unfolding ingest_turn zip_strict nones embed embed_batch extract flatten_messages
    post_turn db =
        with_candidates db
          (extract fl py clients.llm_enabled clients.chat (flatten_messages payload.messages))
