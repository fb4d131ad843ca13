-- ===== src/Extraction/RuleExtractor.antt =====
-- src/memory_service/extraction/rule_extractor.py: the candidates that patterns find in the lines of
-- the user. `seen` is a list here, in the order in which the keys come.
pub mod Patterns
pub mod Connectors
pub mod Distinct
use mathlib.Core.Option.{get_or}
use higgsfield_memory_servic.Prelude.{
  ℕ, zero, suc, String, Bool, true, false, not, ◌&&◌, ◌||◌, Option, none, some, List, [], ◌∷◌, ◌++◌,
  map, ◌==◌, nat_eq, list_eq, pair_eq, if◌then◌else◌, ltb, length, take, contains,
}
use higgsfield_memory_servic.Text.{Text, codes, is_empty, is_space, strip, lower}
use higgsfield_memory_servic.Numbers.{Floats}
use higgsfield_memory_servic.Dict.{Dict, lookup}
use higgsfield_memory_servic.Models.{MemoryType, EntityMention, MemoryCandidate}
use higgsfield_memory_servic.Regex.{
  Re, At, bound, line_start, line_end, text_end, one, seq, group, star, lit, spaces, opt, phrase,
  any_of, plus, cat, found, finditer, group_text, removed,
}
use Patterns.{Pattern, patterns}

abbrev trailing_connector : Re
trailing_connector = cat (
    spaces
    ∷ any_of (lit (codes "as")) (
        map (λ w. lit (codes w))
          ("is" ∷ "was" ∷ "in" ∷ "at" ∷ "on" ∷ "for" ∷ "with" ∷ "the" ∷ "a" ∷ "an" ∷ "to" ∷ "from"
            ∷ "by" ∷ "of" ∷ "and" ∷ "or" ∷ "but" ∷ "so" ∷ "before" ∷ "after" ∷ "while" ∷ "during"
            ∷ "this" ∷ "that" ∷ "these" ∷ "those" ∷ "here" ∷ "there" ∷ "now" ∷ "just" ∷ "who"
            ∷ "which" ∷ "what" ∷ "where" ∷ "when" ∷ "why" ∷ "how" ∷ []))
    ∷ text_end
    ∷ [])

-- `s.rstrip()` by a test of the characters that go
unfoldable pub rstrip_by : (ℕ → Bool) → Text → Text
rstrip_by goes [] = []
rstrip_by goes (c ∷ s) =
    let rest = rstrip_by goes s in if goes c && is_empty rest then [] else c ∷ rest

-- One pass of the loop of `_trim_trailing_connectors`.
unfoldable pub trim_pass : Text → Text
unfolding removed rstrip_by is_space
trim_pass s = rstrip_by is_space (removed trailing_connector none 0 s)

-- The loop, on fuel.
unfoldable pub trim_loop : ℕ → Text → Text
unfolding trim_pass list_eq nat_eq
trim_loop zero s = s
trim_loop (suc fuel) s = elim (trim_pass s == s) [ true ↦ s | false ↦ trim_loop fuel (trim_pass s) ]

unfoldable pub trim_trailing_connectors : Text → Text
unfolding trim_loop
trim_trailing_connectors s = trim_loop (length s) s

abbrev correction : Re
correction = cat (
    bound
    ∷ any_of (lit (codes "actually"))
        (lit (codes "sorry") ∷ lit (codes "correction") ∷ phrase ("i" ∷ "meant" ∷ []) ∷ [])
    ∷ bound
    ∷ [])

abbrev user_line : Re
user_line = cat (
    line_start
    ∷ lit (codes "user")
    ∷ opt (cat (lit (codes "(") ∷ star (one (λ c. not (c == 41))) ∷ lit (codes ")") ∷ []))
    ∷ lit (codes ":")
    ∷ star (one is_space)
    ∷ group 1 (plus (one (λ c. not (c == 10))))
    ∷ line_end
    ∷ [])

-- `_iter_user_lines`
unfoldable pub user_lines : Text → List Text
unfolding finditer strip nat_eq is_space
user_lines messages_text =
    map (λ m. strip (get_or (group_text 1 m) [])) (finditer user_line messages_text)

abbrev summaries : Dict Text Text
summaries =
    (codes "employer", codes "Works at ")
    ∷ (codes "lives_in", codes "Lives in ")
    ∷ (codes "lived_in", codes "Previously lived in ")
    ∷ (codes "from", codes "From ")
    ∷ (codes "owns_pet", codes "Has a pet named ")
    ∷ (codes "dietary_restriction", codes "Dietary: ")
    ∷ (codes "allergic_to", codes "Allergic to ")
    ∷ (codes "likes", codes "Likes ")
    ∷ (codes "dislikes", codes "Dislikes ")
    ∷ (codes "prefers", codes "Prefers ")
    ∷ []

-- `_value_for`
unfoldable pub value_for : Text → Text → Text
unfolding lookup strip list_eq nat_eq
value_for pred object = get_or (lookup pred summaries) (pred ++ codes ": ") ++ strip object

-- `_entity_for`
unfoldable pub entity_for : Text → Text → List EntityMention
unfolding list_eq nat_eq
entity_for pred object =
    if pred == codes "employer" || pred == codes "previous_employer"
    then record { name = object; type = some (codes "org") } ∷ []
    else if pred == codes "lives_in" || pred == codes "lived_in" || pred == codes "from"
    then record { name = object; type = some (codes "place") } ∷ []
    else if pred == codes "owns_pet"
    then record { name = object; type = some (codes "pet") } ∷ []
    else []

abbrev punctuation : ℕ → Bool
punctuation c = contains (codes ".,;:!?") c

-- What is made of the text of the group.
unfoldable pub clean_object : Text → Text
unfolding strip rstrip_by trim_trailing_connectors nat_eq
clean_object s = trim_trailing_connectors (strip (rstrip_by punctuation (strip s)))

-- `out` and `seen`; the subject is the user's in all keys.
pub record Found (F : Type 0) : Type 0 where
  pub out : List (MemoryCandidate F)
  pub seen : List (Text × Text)

module _ {F : Type 0} (fl : Floats F) where
  unfoldable pub rule_candidate : Text → Pattern → Text → MemoryCandidate F
  unfolding value_for entity_for found
  rule_candidate line p object = record {
    type = p.type;
    subject = codes "user";
    predicate = p.predicate;
    object = object;
    value = value_for p.predicate object;
    raw_quote = take 240 line;
    confidence = if found correction line then fl.decimal 85 2 else fl.decimal 6 1;
    entities = entity_for p.predicate object;
  }

  -- The rest of the body of the loop, for a cleaned object.
  unfoldable pub add_found : Text → Pattern → Text → Found F → Found F
  unfolding rule_candidate lower list_eq nat_eq pair_eq
  add_found line p object st =
      if is_empty object || ltb 80 (length object)
      then st
      else if contains st.seen (p.predicate, lower object)
      then st
      else record {
        out = st.out ++ (rule_candidate line p object ∷ []);
        seen = st.seen ++ ((p.predicate, lower object) ∷ []);
      }

  -- `if not obj: continue`
  abbrev pub add_match : Text → Pattern → Option Text → Found F → Found F
  add_match line p none st = st
  add_match line p (some object) st =
      if is_empty object then st else add_found line p (clean_object object) st

  unfoldable pub add_matches : Text → Pattern → List At → Found F → Found F
  unfolding add_found clean_object nat_eq
  add_matches line p [] st = st
  add_matches line p (m ∷ ms) st =
      add_matches line p ms (add_match line p (group_text p.target m) st)

  unfoldable pub add_patterns : Text → List Pattern → Found F → Found F
  unfolding add_matches finditer
  add_patterns line [] st = st
  add_patterns line (p ∷ ps) st =
      add_patterns line ps (add_matches line p (finditer p.regex line) st)

  unfoldable pub add_lines : List Text → Found F → Found F
  unfolding add_patterns patterns
  add_lines [] st = st
  add_lines (line ∷ lines) st = add_lines lines (add_patterns line patterns st)

  unfoldable pub extract_via_rules : Text → List (MemoryCandidate F)
  unfolding add_lines user_lines
  extract_via_rules messages_text =
      (add_lines (user_lines messages_text) (record { out = []; seen = [] })).out
