-- ===== src/Extraction/LlmExtractor.antt =====
-- src/memory_service/extraction/llm_extractor.py, from the answer of the model on. The system prompt
-- is a constant that the client sends along.
pub mod Candidates
pub mod Wellformed
use mathlib.Core.Option.{get_or}
use higgsfield_memory_servic.Prelude.{
  ℕ, String, Bool, true, false, not, ◌||◌, Option, none, some, List, [], ◌∷◌, ◌++◌, ◌==◌, nat_eq,
  list_eq, if◌then◌else◌,
}
use higgsfield_memory_servic.Text.{Text, codes, is_empty, strip, lower}
use higgsfield_memory_servic.Numbers.{Floats}
use higgsfield_memory_servic.Models.{
  MemoryType, fact, preference, opinion, event, EntityMention, MemoryCandidate,
}
use higgsfield_memory_servic.Taxonomy.{normalize_predicate, predicates_prompt_block}
use higgsfield_memory_servic.Json.{
  Json, null, str, arr, obj, nil, Fields, Outcome, ok, malformed, raised, Python, items, get,
  elements, text_of, truthy, float_of, get_list,
}

-- `_build_user_prompt`
unfoldable pub build_user_prompt : Text → Text
unfolding predicates_prompt_block strip
build_user_prompt messages_text =
    predicates_prompt_block
    ++ (10 ∷ 10 ∷ codes "TURN TO EXTRACT FROM:")
    ++ (10 ∷ codes "----------------------------------------")
    ++ (10 ∷ strip messages_text)
    ++ (10 ∷ codes "----------------------------------------")
    ++ (10 ∷ [])

-- A type that is none of the four counts as a fact.
unfoldable pub type_of : Text → MemoryType
unfolding list_eq nat_eq
type_of t =
    if t == codes "preference"
    then preference
    else if t == codes "opinion"
    then opinion
    else if t == codes "event"
    then event
    else fact

-- `s or default`
abbrev pub or_else : Text → Text → Text
or_else default s = if is_empty s then default else s

module _ {F : Type 0} (fl : Floats F) (py : Python F) where
  -- `max(0.0, min(1.0, x))`
  unfoldable pub clamp : F → F
  clamp x =
      let y = if fl.lt x (fl.decimal 1 0) then x else fl.decimal 1 0 in
      if fl.lt fl.zero_f y then y else fl.zero_f

  -- `str(m.get(k, default))`
  abbrev pub get_text : String → String → Fields F → Text
  get_text k default fs = text_of py (get_or (get (codes k) fs) (str (codes default)))

  abbrev typed : Option (Json F) → Option Text
  typed none = none
  typed (some t) = if truthy fl t then some (lower (strip (text_of py t))) else none

  abbrev named : Fields F → Option (Json F) → List EntityMention
  named fs none = []
  named fs (some n) =
      if truthy fl n
      then record { name = strip (text_of py n); type = typed (get (codes "type") fs) } ∷ []
      else []

  abbrev mention : Json F → List EntityMention
  mention (obj fs) = named fs (get (codes "name") fs)
  mention _ = []

  -- The two loops over entities.
  unfoldable pub mentions : List (Json F) → List EntityMention
  unfolding get truthy strip lower
  mentions [] = []
  mentions (e ∷ es) = mention e ++ mentions es

  abbrev pub envelope_entities : Json F → List EntityMention
  envelope_entities (arr es) = mentions (items es)
  envelope_entities _ = []

  unfoldable pub candidate_with : List EntityMention → Fields F → F → MemoryCandidate F
  unfolding type_of clamp strip lower normalize_predicate get
  candidate_with entities fs confidence = record {
    type = type_of (lower (get_text "type" "fact" fs));
    subject = or_else (codes "user") (strip (get_text "subject" "user" fs));
    predicate = normalize_predicate (get_text "predicate" "" fs);
    object = strip (get_text "object" "" fs);
    value = strip (get_text "value" "" fs);
    raw_quote = strip (get_text "raw_quote" "" fs);
    confidence = clamp confidence;
    entities = entities;
  }

  -- The end of the `try` block: the candidate, if its own entities can be iterated.
  abbrev with_entities :
      List EntityMention
      → Fields F
      → F
      → Outcome (List (Json F))
      → Outcome (List (MemoryCandidate F))
  with_entities envelope fs confidence (ok es) =
      ok (candidate_with (envelope ++ mentions es) fs confidence ∷ [])
  with_entities envelope fs confidence malformed = ok []
  with_entities envelope fs confidence raised = raised

  -- From the confidence on; without an object or a value the candidate is dropped.
  abbrev with_confidence :
      List EntityMention → Fields F → Outcome F → Outcome (List (MemoryCandidate F))
  with_confidence envelope fs (ok confidence) =
      if is_empty (strip (get_text "value" "" fs)) || is_empty (strip (get_text "object" "" fs))
      then ok []
      else with_entities envelope fs confidence (elements (get_list fl (codes "entities") fs))
  with_confidence envelope fs malformed = ok []
  with_confidence envelope fs raised = raised

  -- `float(m.get("confidence", 0.7))`
  abbrev pub confidence_of : Option (Json F) → Outcome F
  confidence_of none = ok (fl.decimal 7 1)
  confidence_of (some j) = float_of fl py j

  -- The body of the loop over the memories: no candidate or one.
  unfoldable pub extract_one : List EntityMention → Json F → Outcome (List (MemoryCandidate F))
  unfolding candidate_with mentions elements float_of truthy get strip
  extract_one envelope (obj fs) =
      with_confidence envelope fs (confidence_of (get (codes "confidence") fs))
  extract_one envelope _ = ok []

  abbrev pub append :
      List (MemoryCandidate F)
      → Outcome (List (MemoryCandidate F))
      → Outcome (List (MemoryCandidate F))
  append cands (ok rest) = ok (cands ++ rest)
  append cands malformed = malformed
  append cands raised = raised

  abbrev pub first_then :
      Outcome (List (MemoryCandidate F))
      → Outcome (List (MemoryCandidate F))
      → Outcome (List (MemoryCandidate F))
  first_then (ok cands) rest = append cands rest
  first_then malformed rest = malformed
  first_then raised rest = raised

  unfoldable pub extract_each :
      List EntityMention → List (Json F) → Outcome (List (MemoryCandidate F))
  unfolding extract_one
  extract_each envelope [] = ok []
  extract_each envelope (m ∷ ms) = first_then (extract_one envelope m) (extract_each envelope ms)

  abbrev from_memories : List EntityMention → Json F → Outcome (List (MemoryCandidate F))
  from_memories envelope (arr ms) = extract_each envelope (items ms)
  from_memories envelope _ = ok []

  -- `obj.get` of an answer that is no object is an AttributeError.
  abbrev from_object : Json F → Outcome (List (MemoryCandidate F))
  from_object (obj fs) =
      from_memories (envelope_entities (get_list fl (codes "entities") fs))
        (get_list fl (codes "memories") fs)
  from_object _ = raised

  abbrev from_answer : Option (Json F) → Outcome (List (MemoryCandidate F))
  from_answer none = ok []
  from_answer (some answer) = if truthy fl answer then from_object answer else ok []

  unfoldable pub extract_via_llm :
      Bool → (Text → Option (Json F)) → Text → Outcome (List (MemoryCandidate F))
  unfolding extract_each build_user_prompt mentions get truthy
  extract_via_llm is_enabled chat messages_text =
      if is_enabled then from_answer (chat (build_user_prompt messages_text)) else ok []
