-- ===== src/Extraction/LlmExtractor/Wellformed.antt =====
-- What the extractor returns for every answer of the model.
use higgsfield_memory_servic.Prelude.{
  Bool, true, false, ◌&&◌, ◌||◌, ◌≡◌, refl, ◌∙◌, ap, Option, none, some, List, [], ◌∷◌, ◌++◌,
  nat_eq, list_eq, any, All-append, Bool-cases, inl, inr,
}
use higgsfield_memory_servic.Text.{Text, codes}
use higgsfield_memory_servic.Numbers.{Floats, IsOrdered}
use higgsfield_memory_servic.Models.{EntityMention, MemoryCandidate}
use higgsfield_memory_servic.Json.{
  Json, null, bool, num, huge, str, arr, obj, Fields, Outcome, Python, items, get, parsed, truthy,
  float_of, get_list,
}
use higgsfield_memory_servic.Extraction.LlmExtractor.{
  build_user_prompt, envelope_entities, with_confidence, confidence_of, extract_one, append,
  first_then, extract_each, from_memories, from_object, from_answer, extract_via_llm,
}
use higgsfield_memory_servic.Extraction.LlmExtractor.Candidates.{
  IsWellformed, Extracted, nothing-Extracted, with_ok-Extracted,
}

-- The confidence of the memory is an integer that no float can hold.
abbrev is_huge : {F : Type 0} → Option (Json F) → Bool
is_huge (some huge) = true
is_huge _ = false

module _ {F : Type 0} (fl : Floats F) where
  abbrev overflows : Json F → Bool
  overflows (obj fs) = is_huge (get (codes "confidence") fs)
  overflows _ = false

  abbrev listed : Json F → List (Json F)
  listed (arr ms) = items ms
  listed _ = []

  -- An answer that the extractor does not survive: no object, or one with such a confidence.
  abbrev breaks_on : Json F → Bool
  breaks_on (obj fs) = any overflows (listed (get_list fl (codes "memories") fs))
  breaks_on _ = true

  abbrev pub breaks : Option (Json F) → Bool
  breaks none = false
  breaks (some answer) = truthy fl answer && breaks_on answer

  module _ (order : IsOrdered fl) (zero_le_one : fl.lt (fl.decimal 1 0) fl.zero_f ≡ false)
      (py : Python F) where
    with_confidence-Extracted :
        (envelope : List EntityMention) (fs : Fields F) (found : Option (Json F))
        → Extracted fl
            (is_huge found)
            (with_confidence fl py envelope fs (confidence_of fl py found))
    unfolding float_of
    with_confidence-Extracted envelope fs none =
        with_ok-Extracted fl order zero_le_one py envelope fs (fl.decimal 7 1)
    with_confidence-Extracted envelope fs (some null) = nothing-Extracted fl
    with_confidence-Extracted envelope fs (some (bool b)) =
        with_ok-Extracted fl order zero_le_one py envelope fs _
    with_confidence-Extracted envelope fs (some (num x)) =
        with_ok-Extracted fl order zero_le_one py envelope fs x
    with_confidence-Extracted envelope fs (some huge) = refl
    with_confidence-Extracted envelope fs (some (str t)) = read (py.parse_float t)
      where
        read : (o : Option F) → Extracted fl false (with_confidence fl py envelope fs (parsed o))
        read none = nothing-Extracted fl
        read (some x) = with_ok-Extracted fl order zero_le_one py envelope fs x
    with_confidence-Extracted envelope fs (some (arr js)) = nothing-Extracted fl
    with_confidence-Extracted envelope fs (some (obj gs)) = nothing-Extracted fl

    extract_one-Extracted :
        (envelope : List EntityMention) (m : Json F)
        → Extracted fl (overflows m) (extract_one fl py envelope m)
    unfolding extract_one
    extract_one-Extracted envelope null = nothing-Extracted fl
    extract_one-Extracted envelope (bool b) = nothing-Extracted fl
    extract_one-Extracted envelope (num x) = nothing-Extracted fl
    extract_one-Extracted envelope huge = nothing-Extracted fl
    extract_one-Extracted envelope (str t) = nothing-Extracted fl
    extract_one-Extracted envelope (arr js) = nothing-Extracted fl
    extract_one-Extracted envelope (obj fs) =
        with_confidence-Extracted envelope fs (get (codes "confidence") fs)

    first_then-Extracted :
        (a b : Bool) (x y : Outcome (List (MemoryCandidate F)))
        → Extracted fl a x
        → Extracted fl b y
        → Extracted fl (a || b) (first_then fl py x y)
    first_then-Extracted true b x y p q = ap (λ o. first_then fl py o y) p
    first_then-Extracted false true x y (cands, p, fit) q =
        ap (λ o. first_then fl py o y) p ∙ ap (append fl py cands) q
    first_then-Extracted false false x y (cands, p, fit) (more, q, fit2) = (
      cands ++ more,
      ap (λ o. first_then fl py o y) p ∙ ap (append fl py cands) q,
      All-append (IsWellformed fl) cands more fit fit2,
    )

    extract_each-Extracted :
        (envelope : List EntityMention) (ms : List (Json F))
        → Extracted fl (any overflows ms) (extract_each fl py envelope ms)
    unfolding extract_each
    extract_each-Extracted envelope [] = nothing-Extracted fl
    extract_each-Extracted envelope (m ∷ ms) =
        first_then-Extracted (overflows m) (any overflows ms) _ _ (extract_one-Extracted envelope m)
          (extract_each-Extracted envelope ms)

    from_memories-Extracted :
        (envelope : List EntityMention) (found : Json F)
        → Extracted fl (any overflows (listed found)) (from_memories fl py envelope found)
    from_memories-Extracted envelope null = nothing-Extracted fl
    from_memories-Extracted envelope (bool b) = nothing-Extracted fl
    from_memories-Extracted envelope (num x) = nothing-Extracted fl
    from_memories-Extracted envelope huge = nothing-Extracted fl
    from_memories-Extracted envelope (str t) = nothing-Extracted fl
    from_memories-Extracted envelope (obj fs) = nothing-Extracted fl
    from_memories-Extracted envelope (arr ms) = extract_each-Extracted envelope (items ms)

    from_object-Extracted :
        (answer : Json F) → Extracted fl (breaks_on answer) (from_object fl py answer)
    from_object-Extracted null = refl
    from_object-Extracted (bool b) = refl
    from_object-Extracted (num x) = refl
    from_object-Extracted huge = refl
    from_object-Extracted (str t) = refl
    from_object-Extracted (arr js) = refl
    from_object-Extracted (obj fs) =
        from_memories-Extracted (envelope_entities fl py (get_list fl (codes "entities") fs))
          (get_list fl (codes "memories") fs)

    from_answer-Extracted :
        (answer : Option (Json F)) → Extracted fl (breaks answer) (from_answer fl py answer)
    from_answer-Extracted none = nothing-Extracted fl
    from_answer-Extracted (some answer) = elim (Bool-cases (truthy fl answer)) [
      | inl full ↦ rw full (from_object-Extracted answer)
      | inr blank ↦ rw blank (nothing-Extracted fl)
    ]

    -- For every answer of the model, and numbers that are ordered, with no NaN among them and 1 not
    -- below 0: the extractor raises exactly if the client is enabled and the answer, neither
    -- missing nor empty, is no object or lists a memory whose confidence is an integer that no
    -- float can hold. Else it returns, and each candidate has a subject, an object and a value that
    -- are not empty, a predicate of the closed list or one that begins with other:, and a
    -- confidence between 0 and 1.
    pub extract_via_llm-Extracted :
        (is_enabled : Bool) (chat : Text → Option (Json F)) (messages_text : Text)
        → Extracted fl
            (is_enabled && breaks (chat (build_user_prompt messages_text)))
            (extract_via_llm fl py is_enabled chat messages_text)
    unfolding extract_via_llm
    extract_via_llm-Extracted false chat messages_text = nothing-Extracted fl
    extract_via_llm-Extracted true chat messages_text =
        from_answer-Extracted (chat (build_user_prompt messages_text))
