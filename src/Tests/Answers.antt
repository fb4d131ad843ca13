-- ===== src/Tests/Answers.antt =====
-- Search and recall over given reads at concrete inputs.
use higgsfield_memory_servic.Prelude.{
  ℕ, ◌≤◌, true, ◌≡◌, none, some, List, [], ◌∷◌, arith, nat_eq, string_eq, pair_eq, list_eq,
  option_eq,
}
use higgsfield_memory_servic.Text.{is_empty, Text, codes}
use higgsfield_memory_servic.Numbers.{millionths, millionths-IsOrdered}
use higgsfield_memory_servic.Tokens.{approx_token_count}
use higgsfield_memory_servic.Format.{Citation}
use higgsfield_memory_servic.Store.{scope_eq}
use higgsfield_memory_servic.Format.{or_empty}
use higgsfield_memory_servic.Search.{SearchIn, search}
use higgsfield_memory_servic.Search.Results.{Answer, search-Answer}
use higgsfield_memory_servic.Recall.{Analysis, RecallIn, Reads, Settings, recall}
use higgsfield_memory_servic.Recall.Answers.{count-recall-le}
use higgsfield_memory_servic.Tests.{hits, noon}
use higgsfield_memory_servic.Tests.Context.{facts}

abbrev pub payload : SearchIn
payload = record { query = codes "city"; session_id = none; user_id = some (codes "u1"); limit = 2 }

search-Answer_example :
    Answer millionths millionths-IsOrdered noon 60
      (λ _. none ∷ some hits ∷ [])
      payload
      (is_empty (or_empty payload.user_id))
      (is_empty (or_empty payload.session_id))
      (search millionths noon 60 (λ _. none ∷ some hits ∷ []) payload)
search-Answer_example =
    search-Answer millionths millionths-IsOrdered noon 60 (λ _. none ∷ some hits ∷ []) payload

-- Two retrievers answer, one fails; an entity is known.
abbrev reads : Reads ℕ
reads = record {
  retrieve = λ _ _. some hits ∷ none ∷ [];
  stable_facts = λ _. facts;
  entities_for_names = λ _ _. 3 ∷ [];
  memories_mentioning_entities = λ _. [];
  memories_via_edges = λ _. [];
}

abbrev pub settings : Settings ℕ
settings = record { default_recall_k = 12; rrf_k = 60; min_relevance_cosine = 250000 }

abbrev pub asked : RecallIn
asked = record {
  query = codes "Where do I live?";
  session_id = codes "s1";
  user_id = some (codes "u1");
  max_tokens = 64;
}

abbrev pub analysis : Analysis
analysis = record {
  intent = "factoid_about_user";
  profile_relevant = true;
  entities = codes "Berlin" ∷ [];
  expanded_queries = [];
}

count-recall-le_example :
    (out : Text × List (Citation ℕ)) × (recall millionths reads none settings asked analysis
      ≡ some out)
    × (approx_token_count none out.0 ≤ 64)
count-recall-le_example =
    count-recall-le millionths millionths-IsOrdered reads settings asked analysis (omega arith)
