-- ===== src/Extraction/Service.antt =====
-- src/memory_service/extraction/service.py: the model first, the rules if it yields nothing.
use higgsfield_memory_servic.Prelude.{
  Bool, true, false, ◌&&◌, ◌≡◌, ◌∙◌, refl, ap, Option, List, [], ◌∷◌, if◌then◌else◌, nat_eq,
  list_eq, pair_eq, All, Bool-cases, inl, inr,
}
use higgsfield_memory_servic.Text.{Text, is_empty, strip}
use higgsfield_memory_servic.Numbers.{Floats, IsOrdered}
use higgsfield_memory_servic.Models.{MemoryCandidate}
use higgsfield_memory_servic.Json.{Json, Outcome, ok, malformed, raised, Python}
use higgsfield_memory_servic.Extraction.LlmExtractor.{build_user_prompt, extract_via_llm}
use higgsfield_memory_servic.Extraction.LlmExtractor.Candidates.{IsWellformed, Extracted}
use higgsfield_memory_servic.Extraction.LlmExtractor.Wellformed.{breaks, extract_via_llm-Extracted}
use higgsfield_memory_servic.Extraction.RuleExtractor.{extract_via_rules}

module _ {F : Type 0} (fl : Floats F) (py : Python F) where
  abbrev or_rules : Text → Outcome (List (MemoryCandidate F)) → Outcome (List (MemoryCandidate F))
  or_rules messages_text (ok []) = ok (extract_via_rules fl messages_text)
  or_rules messages_text (ok (c ∷ cands)) = ok (c ∷ cands)
  or_rules messages_text malformed = malformed
  or_rules messages_text raised = raised

  -- `ExtractionService.extract`
  unfoldable pub extract :
      Bool → (Text → Option (Json F)) → Text → Outcome (List (MemoryCandidate F))
  unfolding extract_via_llm extract_via_rules strip
  extract is_enabled chat messages_text =
      if is_empty (strip messages_text)
      then ok []
      else if is_enabled
      then or_rules messages_text (extract_via_llm fl py is_enabled chat messages_text)
      else ok (extract_via_rules fl messages_text)

module _ {F : Type 0} (fl : Floats F) (order : IsOrdered fl)
    (zero_le_one : fl.lt (fl.decimal 1 0) fl.zero_f ≡ false) (py : Python F) (is_enabled : Bool)
    (chat : Text → Option (Json F)) (messages_text : Text) where
  abbrev from_llm : Outcome (List (MemoryCandidate F))
  from_llm = extract_via_llm fl py is_enabled chat messages_text

  -- With a client whose answer the extractor survives: its candidates, or those of the rules if it
  -- has none.
  pub record IsServed (out : Outcome (List (MemoryCandidate F))) : Type 0 where
    pub found : List (MemoryCandidate F)
    pub by_llm : from_llm ≡ ok found
    pub fit : All (IsWellformed fl) found
    pub served : out ≡ ok (if is_empty found then extract_via_rules fl messages_text else found)

  -- By whether the text is blank, whether the client is enabled, and whether its answer is one that
  -- the extractor does not survive.
  abbrev pub Served : Bool → Bool → Bool → Outcome (List (MemoryCandidate F)) → Type 0
  Served true enabled breaking out = out ≡ ok []
  Served false false breaking out = out ≡ ok (extract_via_rules fl messages_text)
  Served false true true out = out ≡ raised
  Served false true false out = IsServed out

  or_rules-served :
      (found : List (MemoryCandidate F))
      → or_rules fl py messages_text (ok found)
        ≡ ok (if is_empty found then extract_via_rules fl messages_text else found)
  or_rules-served [] = refl
  or_rules-served (c ∷ found) = refl

  or_rules-Served :
      (breaking : Bool)
      → Extracted fl breaking from_llm
      → Served false true breaking (or_rules fl py messages_text from_llm)
  or_rules-Served true h = ap (or_rules fl py messages_text) h
  or_rules-Served false (found, e, fit) = record {
    found = found;
    by_llm = e;
    fit = fit;
    served = ap (or_rules fl py messages_text) e ∙ or_rules-served found;
  }

  -- For every text and every answer of the model, and numbers that are ordered, with no NaN among
  -- them and 1 not below 0: a blank text has no candidate. For any other, without a client the
  -- service yields the candidates of the rules; with a client it raises if its answer is one that
  -- the extractor does not survive, and else yields the candidates that the extractor reads from
  -- the answer, which are well-formed, or those of the rules if there are none.
  pub extract-Served :
      Served
        (is_empty (strip messages_text))
        is_enabled
        (is_enabled && breaks fl (chat (build_user_prompt messages_text)))
        (extract fl py is_enabled chat messages_text)
  unfolding extract
  extract-Served = elim (Bool-cases (is_empty (strip messages_text))) [
    | inl blank ↦ rw blank refl
    | inr full ↦ rw full (by_client is_enabled refl)
  ]
    where
      by_client :
          (b : Bool)
          → b ≡ is_enabled
          → Served false b (is_enabled && breaks fl (chat (build_user_prompt messages_text))) (
              if b
              then or_rules fl py messages_text from_llm
              else ok (extract_via_rules fl messages_text))
      by_client true on =
          or_rules-Served (is_enabled && breaks fl (chat (build_user_prompt messages_text)))
            (extract_via_llm-Extracted fl order zero_le_one py is_enabled chat messages_text)
      by_client false off = refl
