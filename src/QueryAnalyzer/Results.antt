-- ===== src/QueryAnalyzer/Results.antt =====
-- What the analyzer returns for every query and every answer of the model.
use mathlib.Core.Option.{get_or}
use higgsfield_memory_servic.Prelude.{
  ◌≤◌, String, Bool, true, false, not, ◌&&◌, ◌||◌, ◌≡◌, refl, Option, none, some, List, [], ◌∷◌,
  ◌++◌, arith, ◌==◌, string_eq, nat_eq, list_eq, if◌then◌else◌, find, length, contains,
  length-take-le, All, All-append, All-take, Bool-cases, inl, inr,
}
use higgsfield_memory_servic.Text.{Text, codes, is_empty, strip, lower, occurs_in}
use higgsfield_memory_servic.Numbers.{Floats}
use higgsfield_memory_servic.Regex.{At, found, finditer, group_text}
use higgsfield_memory_servic.Json.{
  Json, null, bool, num, huge, str, arr, obj, Fields, Outcome, ok, malformed, raised, Python,
  elements, text_of, truthy, get_list,
}
use higgsfield_memory_servic.Recall.{Analysis}
use higgsfield_memory_servic.QueryAnalyzer.{
  profile_triggers, negative_intent, cap_token, token_of, cap_tokens, heuristic_intent, heuristic,
  intents, cold, intent_of, stripped, with_lists, read_answer, or_heuristic, from_reply, analyze,
}

-- What recall may rely on.
pub record IsAnalysis (a : Analysis) : Type 0 where
  pub intent : contains intents a.intent ≡ true
  pub named : All (λ e. is_empty e ≡ false) a.entities
  pub few_entities : length a.entities ≤ 8
  pub asked : All (λ q. is_empty q ≡ false) a.expanded_queries
  pub few_queries : length a.expanded_queries ≤ 3

known-if :
    (b : Bool) (x y : String)
    → contains intents x ≡ true
    → contains intents y ≡ true
    → contains intents (if b then x else y) ≡ true
known-if true x y p q = p
known-if false x y p q = q

-- What a search in the list yields is listed.
find-contains :
    (p : String → Bool) (xs : List String) (x : String) → find p xs ≡ some x → contains xs x ≡ true
find-contains p [] x e = cc
find-contains p (y ∷ ys) x e = elim (Bool-cases (p y)) [
  | inl here ↦ ground (arith, e)
  | inr differs ↦ ground (arith, e, find-contains p ys x)
]

found-known :
    (found : Option String)
    → ((x : String) → found ≡ some x → contains intents x ≡ true)
    → contains intents (get_or found "exploratory") ≡ true
unfolding string_eq
found-known none h = refl
found-known (some x) h = h x refl

token_of-full : (t : Option Text) → All (λ e. is_empty e ≡ false) (token_of t)
token_of-full none = tt
token_of-full (some t) = ground arith

cap_tokens-full : (ms : List At) → All (λ e. is_empty e ≡ false) (cap_tokens ms)
unfolding cap_tokens
cap_tokens-full [] = tt
cap_tokens-full (m ∷ ms) =
    All-append _ (token_of (group_text 1 m)) (cap_tokens ms) (token_of-full (group_text 1 m))
      (cap_tokens-full ms)

heuristic_intent-known : (query : Text) → contains intents (heuristic_intent query) ≡ true
unfolding string_eq
heuristic_intent-known query =
    known-if (not (found profile_triggers query)) _ _
      (known-if (found negative_intent query) "factoid_general" "exploratory" refl refl)
      (known-if
        (occurs_in (codes "remember") (lower query)
          || occurs_in (codes "recall") (lower query)
          || occurs_in (codes "just") (lower query))
        "recent_context" "factoid_about_user" refl refl)

heuristic-IsAnalysis : (query : Text) → IsAnalysis (heuristic query)
unfolding heuristic
heuristic-IsAnalysis query =
    let tokens = cap_tokens (finditer cap_token query) in
    record {
      intent = heuristic_intent-known query;
      named = All-take _ 6 tokens (cap_tokens-full (finditer cap_token query));
      few_entities = omega (arith, length-take-le 6 tokens);
      asked = tt;
      few_queries = omega arith;
    }

cold-IsAnalysis : IsAnalysis cold
unfolding string_eq
cold-IsAnalysis = record {
  intent = refl;
  named = tt;
  few_entities = omega arith;
  asked = tt;
  few_queries = omega arith;
}

module _ {F : Type 0} (fl : Floats F) where
  -- An analysis, or the error that gets through.
  abbrev pub Analyzed : Bool → Outcome Analysis → Type 0
  Analyzed true out = out ≡ raised
  Analyzed false out = (a : Analysis) × (out ≡ ok a) × IsAnalysis a

  abbrev is_object : Json F → Bool
  is_object (obj fs) = true
  is_object _ = false

  -- The analyzer does not survive an answer that is true and no object.
  abbrev pub breaks : Option (Json F) → Bool
  breaks none = false
  breaks (some answer) = truthy fl answer && not (is_object answer)

  module _ (py : Python F) where
    intent_of-known : (raw : Text) → contains intents (intent_of fl py raw) ≡ true
    unfolding intent_of
    intent_of-known raw =
        found-known (find (λ i. raw == codes i) intents)
          (find-contains (λ i. raw == codes i) intents)

    stripped-full : (es : List (Json F)) → All (λ e. is_empty e ≡ false) (stripped fl py es)
    unfolding stripped
    stripped-full [] = tt
    stripped-full (e ∷ es) = elim (Bool-cases (is_empty (strip (text_of py e)))) [
      | inl blank ↦ rw blank (stripped-full es)
      | inr full ↦ rw full (full, stripped-full es)
    ]

    heuristic-Analyzed : (query : Text) → Analyzed false (ok (heuristic query))
    heuristic-Analyzed query = (heuristic query, refl, heuristic-IsAnalysis query)

    -- No iteration raises an error that gets through.
    abbrev IsCaught : Outcome (List (Json F)) → Type 0
    IsCaught raised = ⊥
    IsCaught _ = Unit

    elements-IsCaught : (j : Json F) → IsCaught (elements j)
    unfolding elements
    elements-IsCaught null = tt
    elements-IsCaught (bool b) = tt
    elements-IsCaught (num x) = tt
    elements-IsCaught huge = tt
    elements-IsCaught (str t) = tt
    elements-IsCaught (arr js) = tt
    elements-IsCaught (obj fs) = tt

    with_lists-Analyzed :
        (query : Text) (fs : Fields F) (ents xq : Outcome (List (Json F)))
        → IsCaught ents
        → IsCaught xq
        → Analyzed false (or_heuristic fl py query (with_lists fl py fs ents xq))
    with_lists-Analyzed query fs (ok ents) (ok xq) p q = (
      _,
      refl,
      record {
        intent = intent_of-known _;
        named = All-take _ 8 (stripped fl py ents) (stripped-full ents);
        few_entities = length-take-le 8 (stripped fl py ents);
        asked = All-take _ 3 (stripped fl py xq) (stripped-full xq);
        few_queries = length-take-le 3 (stripped fl py xq);
      },
    )
    with_lists-Analyzed query fs (ok ents) malformed p q = heuristic-Analyzed query
    with_lists-Analyzed query fs (ok ents) raised p q = absurd q
    with_lists-Analyzed query fs malformed (ok xq) p q = heuristic-Analyzed query
    with_lists-Analyzed query fs malformed malformed p q = heuristic-Analyzed query
    with_lists-Analyzed query fs malformed raised p q = absurd q
    with_lists-Analyzed query fs raised xq p q = absurd p

    read_answer-Analyzed :
        (query : Text) (answer : Json F)
        → Analyzed (not (is_object answer)) (or_heuristic fl py query (read_answer fl py answer))
    unfolding read_answer
    read_answer-Analyzed query null = refl
    read_answer-Analyzed query (bool b) = refl
    read_answer-Analyzed query (num x) = refl
    read_answer-Analyzed query huge = refl
    read_answer-Analyzed query (str t) = refl
    read_answer-Analyzed query (arr js) = refl
    read_answer-Analyzed query (obj fs) =
        with_lists-Analyzed query fs (elements (get_list fl (codes "entities") fs))
          (elements (get_list fl (codes "expanded_queries") fs))
          (elements-IsCaught (get_list fl (codes "entities") fs))
          (elements-IsCaught (get_list fl (codes "expanded_queries") fs))

    from_reply-Analyzed :
        (query : Text) (reply : Option (Json F))
        → Analyzed (breaks reply) (from_reply fl py query reply)
    from_reply-Analyzed query none = heuristic-Analyzed query
    from_reply-Analyzed query (some answer) = elim (Bool-cases (truthy fl answer)) [
      | inl full ↦ rw full (read_answer-Analyzed query answer)
      | inr blank ↦ rw blank (heuristic-Analyzed query)
    ]

    -- For every query and every answer of the model: the analyzer raises exactly if the query is not
    -- blank, the client is enabled and the answer, neither missing nor empty, is no object. Else it
    -- returns one of the five intents, at most eight entities and at most three paraphrases, none of
    -- them empty.
    pub analyze-Analyzed :
        (is_enabled : Bool) (chat : Text → Option (Json F)) (query : Text)
        → Analyzed
            (not (is_empty (strip query))
              && (is_enabled && breaks (chat (codes "QUERY: " ++ strip query))))
            (analyze fl py is_enabled chat query)
    unfolding analyze
    analyze-Analyzed is_enabled chat query = elim (Bool-cases (is_empty (strip query))) [
      | inl blank ↦ rw blank (cold, refl, cold-IsAnalysis)
      | inr asked ↦ rw asked (by_client is_enabled)
    ]
      where
        by_client :
            (b : Bool)
            → Analyzed (b && breaks (chat (codes "QUERY: " ++ strip query))) (
                if b
                then from_reply fl py query (chat (codes "QUERY: " ++ strip query))
                else ok (heuristic query))
        by_client true = from_reply-Analyzed query (chat (codes "QUERY: " ++ strip query))
        by_client false = heuristic-Analyzed query
