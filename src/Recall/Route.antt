-- ===== src/Recall/Route.antt =====
-- POST /recall as a whole: the query is analysed, and then recalled from the tables.
use higgsfield_memory_servic.Prelude.{
  Bool, true, false, ◌&&◌, not, ◌≡◌, Option, none, some, List, ◌++◌, All,
}
use higgsfield_memory_servic.Text.{Text, codes, is_empty, strip}
use higgsfield_memory_servic.Numbers.{Floats, IsOrdered}
use higgsfield_memory_servic.Tokens.{Encoding}
use higgsfield_memory_servic.Json.{Json, Outcome, ok, Python}
use higgsfield_memory_servic.Format.{Citation}
use higgsfield_memory_servic.QueryAnalyzer.{analyze}
use higgsfield_memory_servic.QueryAnalyzer.Results.{breaks}
use higgsfield_memory_servic.Store.{Turn, Memory, Db}
use higgsfield_memory_servic.Store.Sound.{IsSound}
use higgsfield_memory_servic.TurnRepo.{scope_for}
use higgsfield_memory_servic.MemoryRepo.{Scan}
use higgsfield_memory_servic.Retrievers.{Ranking}
use higgsfield_memory_servic.Recall.{Analysis, RecallIn, Reads, Settings, recall}
use higgsfield_memory_servic.Recall.Scoped.{IsStored}

module _ {F : Type 0} (fl : Floats F) (py : Python F) (reads : Reads F) (enc : Option Encoding)
    (settings : Settings F) (is_enabled : Bool) (chat : Text → Option (Json F)) where
  abbrev with_analysis : RecallIn → Outcome Analysis → Option (Text × List (Citation F))
  with_analysis payload (ok analysis) = recall fl reads enc settings payload analysis
  with_analysis payload _ = none

  -- `none` is an error.
  unfoldable pub post_recall : RecallIn → Option (Text × List (Citation F))
  unfolding recall analyze
  post_recall payload = with_analysis payload (analyze fl py is_enabled chat payload.query)

module _ {F : Type 0} (fl : Floats F) (order : IsOrdered fl) (py : Python F) (rk : Ranking F)
    (turn_scan : Scan (Turn F)) (memory_scan : Scan (Memory F)) (embed : Text → Option (List F))
    (enc : Option Encoding) (settings : Settings F) (is_enabled : Bool)
    (chat : Text → Option (Json F)) (db : Db F) (sound : IsSound db) (payload : RecallIn) where
  -- Whether the answer of the model is one that the analyzer does not survive.
  abbrev pub fails : Bool
  fails =
      not (is_empty (strip payload.query))
      && (is_enabled && breaks fl (chat (codes "QUERY: " ++ strip payload.query)))

  abbrev pub Recalled : Bool → Option (Text × List (Citation F)) → Type 0
  Recalled true result = result ≡ none
  Recalled false result =
      (out : Text × List (Citation F)) × (result ≡ some out)
      × All (λ c. IsStored db (scope_for payload.user_id payload.session_id) c.turn_id) out.1
