-- ===== src/Tests/Extraction.antt =====
-- Extraction, embedding and analysis at concrete inputs.
use higgsfield_memory_servic.Prelude.{
  ℕ, true, false, not, ◌&&◌, ◌≡◌, refl, none, some, List, [], ◌∷◌, ◌++◌, map, arith, nat_eq,
  list_eq, pair_eq, if◌then◌else◌, length, All, Option,
}
use higgsfield_memory_servic.Text.{Text, codes, is_empty, strip, lower}
use higgsfield_memory_servic.Numbers.{millionths, millionths-IsOrdered}
use higgsfield_memory_servic.Json.{Json, num, str, arr, obj, cons, nil, field, end, Python}
use higgsfield_memory_servic.Embedding.{embedded, nones, embed_batch, or_nones}
use higgsfield_memory_servic.Embedding.Batch.{batch, cleaned, embed_batch-eq-batch}
use higgsfield_memory_servic.Extraction.LlmExtractor.{build_user_prompt, extract_via_llm}
use higgsfield_memory_servic.Extraction.LlmExtractor.Candidates.{Extracted}
use higgsfield_memory_servic.Extraction.LlmExtractor.Wellformed.{breaks, extract_via_llm-Extracted}
use higgsfield_memory_servic.Extraction.RuleExtractor.{
  extract_via_rules, trim_pass, trim_loop, trim_trailing_connectors,
}
use higgsfield_memory_servic.Extraction.RuleExtractor.Connectors.{trim_trailing_connectors-fixed}
use higgsfield_memory_servic.Extraction.RuleExtractor.Distinct.{
  Distinct, found_key, IsRuled, extract_via_rules-Distinct,
}
use higgsfield_memory_servic.Extraction.Service.{extract, Served, extract-Served}
use higgsfield_memory_servic.QueryAnalyzer.{analyze}
use higgsfield_memory_servic.QueryAnalyzer.Results
use higgsfield_memory_servic.QueryAnalyzer.Results.{Analyzed, analyze-Analyzed}
use higgsfield_memory_servic.Ingest.Route.{Clients, post_turn}
use higgsfield_memory_servic.Ingest.Route.Posted.{fails, Posted, post_turn-Posted}
use higgsfield_memory_servic.Store.{no_rows}
use higgsfield_memory_servic.Service.{start}
use higgsfield_memory_servic.Service.Invariant.{Reach-IsState}
use higgsfield_memory_servic.Tests.{noon}
use higgsfield_memory_servic.Tests.Tables.{any_order, turn_in}

trimmed : trim_trailing_connectors (codes "Notion as a") ≡ codes "Notion"
unfolding trim_trailing_connectors lower
trimmed = refl

berlin :
    map (λ c. c.value) (extract_via_rules millionths (codes "user: I moved to Berlin from Paris"))
    ≡ codes "Lives in Berlin" ∷ codes "Previously lived in Paris" ∷ []
unfolding extract_via_rules
berlin = refl

-- After an empty message of the user, the next line counts as the user's.
next_line :
    map
      (λ c. c.value)
      (extract_via_rules millionths (codes "user: " ++ (10 ∷ codes "assistant: I live in Paris")))
    ≡ codes "Lives in Paris" ∷ []
unfolding extract_via_rules
next_line = refl

trim_trailing_connectors-fixed_example :
    (trim_loop 20 (codes "Notion as a") ≡ trim_trailing_connectors (codes "Notion as a"))
    × (trim_pass (trim_trailing_connectors (codes "Notion as a"))
        ≡ trim_trailing_connectors (codes "Notion as a"))
trim_trailing_connectors-fixed_example =
    trim_trailing_connectors-fixed 20 (codes "Notion as a") (omega arith)

abbrev moved_text : Text
moved_text = codes "user: I moved to Berlin from Paris"

extract_via_rules-Distinct_example :
    Distinct (map (found_key millionths) (extract_via_rules millionths moved_text))
    × All (IsRuled millionths) (extract_via_rules millionths moved_text)
extract_via_rules-Distinct_example = extract_via_rules-Distinct millionths moved_text

abbrev pub python : Python ℕ
python = record { repr = λ j. codes "?"; parse_float = λ t. none }

abbrev works : Json ℕ
works = obj (
    field (codes "predicate") (str (codes "works at")) (
      field (codes "object") (str (codes "Notion")) (
        field (codes "value") (str (codes "Works at Notion"))
          (field (codes "confidence") (num 2000000) end))))

-- The model answers with one memory.
abbrev pub chat : Text → Option (Json ℕ)
chat prompt = some (obj (field (codes "memories") (arr (cons works nil)) end))

extract_via_llm-Extracted_example :
    Extracted millionths
      (true && breaks millionths (chat (build_user_prompt moved_text)))
      (extract_via_llm millionths python true chat moved_text)
extract_via_llm-Extracted_example =
    extract_via_llm-Extracted millionths millionths-IsOrdered refl python true chat moved_text

extract-Served_example :
    Served millionths millionths-IsOrdered refl python true chat moved_text
      (is_empty (strip moved_text))
      true
      (true && breaks millionths (chat (build_user_prompt moved_text)))
      (extract millionths python true chat moved_text)
extract-Served_example =
    extract-Served millionths millionths-IsOrdered refl python true chat moved_text

analyze-Analyzed_example :
    Analyzed millionths
      (not (is_empty (strip moved_text))
        && (true && Results.breaks millionths (chat (codes "QUERY: " ++ strip moved_text))))
      (analyze millionths python true chat moved_text)
analyze-Analyzed_example = analyze-Analyzed millionths python true chat moved_text

-- Each text is embedded as its length.
abbrev embed_texts : List Text → Option (List (List ℕ))
embed_texts texts = some (map (λ t. length t ∷ []) texts)

embed_batch-eq-batch_example :
    (embed_batch true embed_texts (codes "a" ∷ [] ∷ [])
      ≡ (if true then or_nones 2 (batch embed_texts (cleaned (codes "a" ∷ [] ∷ []))) else nones 2))
    × (length (embed_batch true embed_texts (codes "a" ∷ [] ∷ [])) ≡ 2)
embed_batch-eq-batch_example = embed_batch-eq-batch true embed_texts (codes "a" ∷ [] ∷ [])

abbrev clients : Clients ℕ
clients = record {
  llm_enabled = true;
  embed_one = λ n t. embedded (length t ∷ []);
  embed_many = embed_texts;
  chat = chat;
  refuses = λ vec pairs db. false;
}

post_turn-Posted_example :
    Posted millionths millionths-IsOrdered refl python clients any_order noon turn_in no_rows
      (Reach-IsState millionths start).sound
      (fails millionths millionths-IsOrdered refl python clients any_order noon turn_in no_rows
        (Reach-IsState millionths start).sound)
      (post_turn millionths python clients any_order noon turn_in no_rows)
post_turn-Posted_example =
    post_turn-Posted millionths millionths-IsOrdered refl python clients any_order noon turn_in
      no_rows (Reach-IsState millionths start).sound
