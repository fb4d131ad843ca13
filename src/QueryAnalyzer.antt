-- ===== src/QueryAnalyzer.antt =====
-- src/memory_service/services/query_analyzer.py: the answer of the model, or the heuristic without
-- one. The system prompt is a constant that the client sends along.
pub mod Results
use mathlib.Core.Option.{get_or}
use higgsfield_memory_servic.Prelude.{
  ℕ, String, Bool, true, false, not, ◌&&◌, ◌||◌, Option, none, some, List, [], ◌∷◌, ◌++◌, map, ◌==◌,
  nat_eq, list_eq, if◌then◌else◌, find, filter, take, contains,
}
use higgsfield_memory_servic.Text.{Text, codes, is_empty, strip, lower, occurs_in}
use higgsfield_memory_servic.Numbers.{Floats}
use higgsfield_memory_servic.Regex.{
  Re, At, bound, one, seq, alt, group, lit, opt, phrase, any_of, found, finditer, group_text,
  cap_words,
}
use higgsfield_memory_servic.Json.{
  Json, bool, str, obj, Fields, Outcome, ok, malformed, raised, Python, get, elements, text_of,
  truthy, get_list,
}
use higgsfield_memory_servic.Recall.{Analysis}

abbrev word : String → Re
word w = lit (codes w)

abbrev words : List String → List Re
words = map word

unfoldable pub profile_triggers : Re
profile_triggers = seq bound (
    seq
      (any_of (word "my") (
        words ("mine" ∷ [])
        ++ (seq (word "i") bound ∷ seq (word "me") bound ∷ word "user" ∷ [])
        ++ (seq (word "user") (opt (word "s")) ∷ word "prefer" ∷ [])
        ++ (seq (word "preference") (opt (word "s")) ∷ word "like" ∷ [])
        ++ (seq (word "like") (opt (word "s")) ∷ [])
        ++ words ("love" ∷ "hate" ∷ "dislike" ∷ "remember" ∷ "recall" ∷ [])
        ++ (phrase ("know" ∷ "about" ∷ []) ∷ [])
        ++ words ("work" ∷ "job" ∷ "employer" ∷ "company" ∷ [])
        ++ words ("live" ∷ "location" ∷ "city" ∷ "address" ∷ [])
        ++ words ("pet" ∷ "dog" ∷ "cat" ∷ "family" ∷ "partner" ∷ "wife" ∷ "husband" ∷ "kids" ∷ [])
        ++ words ("allerg" ∷ "diet" ∷ "vegetarian" ∷ "vegan" ∷ [])
        ++ words ("hobby" ∷ "hobbies" ∷ [])))
      bound)

unfoldable pub cap_token : Re
cap_token = seq bound (seq (group 1 cap_words) bound)

unfoldable pub negative_intent : Re
negative_intent = seq bound (
    seq
      (any_of (word "capital") (
        words ("nginx" ∷ "kubernetes" ∷ "sql" ∷ "python" ∷ "javascript" ∷ "api" ∷ "http" ∷ [])
        ++ (phrase ("how" ∷ "to" ∷ []) ∷ [])
        ++ (alt (seq (phrase ("what" ∷ "is" ∷ "the" ∷ [])) bound)
              (seq (phrase ("what" ∷ "is" ∷ "a" ∷ [])) bound)
            ∷ phrase ("why" ∷ "is" ∷ [])
            ∷ [])))
      bound)

abbrev question_words : List Text
question_words = map codes ("what" ∷ "where" ∷ "when" ∷ "who" ∷ "why" ∷ "how" ∷ "the" ∷ [])

-- The tokens of the matches, without question words.
abbrev token_of : Option Text → List Text
token_of none = []
token_of (some t) =
    if is_empty (strip t) || contains question_words (lower (strip t)) then [] else strip t ∷ []

unfoldable pub cap_tokens : List At → List Text
unfolding strip lower list_eq nat_eq
cap_tokens [] = []
cap_tokens (m ∷ ms) = token_of (group_text 1 m) ++ cap_tokens ms

abbrev heuristic_intent : Text → String
heuristic_intent query =
    if not (found profile_triggers query)
    then if found negative_intent query then "factoid_general" else "exploratory"
    else if occurs_in (codes "remember") (lower query)
        || occurs_in (codes "recall") (lower query)
        || occurs_in (codes "just") (lower query)
    then "recent_context"
    else "factoid_about_user"

-- `_heuristic`
unfoldable pub heuristic : Text → Analysis
unfolding found finditer profile_triggers cap_token negative_intent cap_tokens lower occurs_in
heuristic query = record {
  intent = heuristic_intent query;
  profile_relevant = found profile_triggers query;
  entities = take 6 (cap_tokens (finditer cap_token query));
  expanded_queries = [];
}

abbrev pub intents : List String
intents = "factoid_about_user" ∷ "factoid_general" ∷ "exploratory" ∷ "recent_context" ∷ "cold" ∷ []

abbrev pub cold : Analysis
cold = record { intent = "cold"; profile_relevant = false; entities = []; expanded_queries = [] }

module _ {F : Type 0} (fl : Floats F) (py : Python F) where
  -- An intent that is none of the five counts as exploratory.
  unfoldable pub intent_of : Text → String
  unfolding list_eq nat_eq
  intent_of raw = get_or (find (λ i. raw == codes i) intents) "exploratory"

  -- `[str(e).strip() for e in es if str(e).strip()]`
  unfoldable pub stripped : List (Json F) → List Text
  unfolding strip
  stripped [] = []
  stripped (e ∷ es) =
      let rest = stripped es in
      if is_empty (strip (text_of py e)) then rest else strip (text_of py e) ∷ rest

  abbrev with_lists :
      Fields F → Outcome (List (Json F)) → Outcome (List (Json F)) → Outcome Analysis
  with_lists fs (ok ents) (ok xq) = ok (record {
    intent = intent_of (lower (text_of py (get_or (get (codes "intent") fs) (str []))));
    profile_relevant = truthy fl (get_or (get (codes "profile_relevant") fs) (bool false));
    entities = take 8 (stripped ents);
    expanded_queries = take 3 (stripped xq);
  })
  with_lists fs raised xq = raised
  with_lists fs (ok ents) raised = raised
  with_lists fs _ _ = malformed

  -- The `try` block; `obj.get` of an answer that is no object is an AttributeError.
  unfoldable pub read_answer : Json F → Outcome Analysis
  unfolding intent_of stripped elements truthy get lower
  read_answer (obj fs) =
      with_lists fs (elements (get_list fl (codes "entities") fs))
        (elements (get_list fl (codes "expanded_queries") fs))
  read_answer _ = raised

  abbrev or_heuristic : Text → Outcome Analysis → Outcome Analysis
  or_heuristic query (ok a) = ok a
  or_heuristic query malformed = ok (heuristic query)
  or_heuristic query raised = raised

  abbrev from_reply : Text → Option (Json F) → Outcome Analysis
  from_reply query none = ok (heuristic query)
  from_reply query (some answer) =
      if truthy fl answer then or_heuristic query (read_answer answer) else ok (heuristic query)

  unfoldable pub analyze : Bool → (Text → Option (Json F)) → Text → Outcome Analysis
  unfolding heuristic read_answer strip truthy
  analyze is_enabled chat query =
      if is_empty (strip query)
      then ok cold
      else if is_enabled
      then from_reply query (chat (codes "QUERY: " ++ strip query))
      else ok (heuristic query)
