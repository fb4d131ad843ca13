-- ===== src/Extraction/RuleExtractor/Patterns.antt =====
-- `PATTERNS` of src/memory_service/extraction/rule_extractor.py. All but `_CAP` is matched without
-- regard to case.
use higgsfield_memory_servic.Prelude.{ℕ, String, ◌||◌, ◌&&◌, not, List, [], ◌∷◌, ◌++◌, leb, map}
use higgsfield_memory_servic.Text.{Text, codes, is_space}
use higgsfield_memory_servic.Models.{MemoryType, fact, preference}
use higgsfield_memory_servic.Regex.{
  Re, is_word, bound, one, seq, alt, group, lit, spaces, opt, phrase, any_of, plus, at_most, cat,
  words_to_3, cap_words,
}

-- The group that holds the object is `target`.
pub record Pattern : Type 0 where
  pub regex : Re
  pub predicate : Text
  pub type : MemoryType
  pub target : ℕ

abbrev word : String → Re
word w = lit (codes w)

abbrev one_of : List String → Re
one_of [] = word ""
one_of (w ∷ ws) = any_of (word w) (map word ws)

-- `(?:w\s+|…)?`
abbrev maybe : List String → Re
maybe ws = opt (seq (one_of ws) spaces)

-- `i(?:'m| am)`
abbrev i_am : Re
i_am = seq (word "i") (one_of ("'m" ∷ " am" ∷ []))

abbrev name : ℕ → Re
name n = group n cap_words

-- `[a-z]` without regard to case
abbrev letter : Re
letter = one (λ c. leb 65 c && leb c 90 || leb 97 c && leb c 122)

-- `[\w\s]{1,n+1}`
abbrev text_to : ℕ → Re
text_to n = let char = one (λ c. is_word c || is_space c) in seq char (at_most n char)

abbrev lower_text : Re
lower_text = group 1 (seq letter (text_to 29))

abbrev any_text : Re
any_text = group 1 (seq (opt letter) (text_to 39))

abbrev fact_of : String → ℕ → List Re → Pattern
fact_of p target parts = record {
  regex = cat (bound ∷ parts);
  predicate = codes p;
  type = fact;
  target = target;
}

abbrev preference_of : String → Re → Pattern
preference_of p verb = record {
  regex = cat (bound ∷ word "i" ∷ spaces ∷ verb ∷ spaces ∷ any_text ∷ bound ∷ []);
  predicate = codes p;
  type = preference;
  target = 1;
}

abbrev work_patterns : List Pattern
work_patterns =
    fact_of "employer" 2 (
      word "i"
      ∷ opt (one_of ("'m" ∷ " am" ∷ []))
      ∷ spaces
      ∷ alt (seq (word "a") (opt (word "n"))) (word "the")
      ∷ spaces
      ∷ group 1 words_to_3
      ∷ spaces
      ∷ word "at"
      ∷ spaces
      ∷ name 2
      ∷ bound
      ∷ [])
    ∷ fact_of "employer" 1 (
        word "i"
        ∷ opt (word "'ve")
        ∷ spaces
        ∷ phrase ("just" ∷ "joined" ∷ [])
        ∷ spaces
        ∷ name 1
        ∷ opt (
            cat (
              spaces
              ∷ word "as"
              ∷ spaces
              ∷ word "a"
              ∷ opt (word "n")
              ∷ spaces
              ∷ group 2 words_to_3
              ∷ []))
        ∷ [])
    ∷ fact_of "employer" 1 (
        phrase ("i" ∷ "work" ∷ [])
        ∷ opt (one_of ("ed" ∷ "ing" ∷ []))
        ∷ spaces
        ∷ one_of ("at" ∷ "for" ∷ [])
        ∷ spaces
        ∷ name 1
        ∷ bound
        ∷ [])
    ∷ fact_of "employer" 1 (phrase ("i" ∷ "joined" ∷ []) ∷ spaces ∷ name 1 ∷ bound ∷ [])
    ∷ []

abbrev place_patterns : List Pattern
place_patterns =
    fact_of "lives_in" 1 (
      one_of ("i" ∷ "and" ∷ [])
      ∷ spaces
      ∷ maybe ("just" ∷ "recently" ∷ "finally" ∷ "already" ∷ "then" ∷ [])
      ∷ one_of ("moved" ∷ "relocated" ∷ "relocating" ∷ [])
      ∷ spaces
      ∷ alt (word "to") (phrase ("out" ∷ "to" ∷ []))
      ∷ spaces
      ∷ name 1
      ∷ bound
      ∷ [])
    ∷ fact_of "lives_in" 1 (
        word "i"
        ∷ spaces
        ∷ alt (word "live") (phrase ("am" ∷ "living" ∷ []))
        ∷ spaces
        ∷ word "in"
        ∷ spaces
        ∷ name 1
        ∷ bound
        ∷ [])
    ∷ fact_of "lives_in" 1 (phrase ("based" ∷ "in" ∷ []) ∷ spaces ∷ name 1 ∷ bound ∷ [])
    ∷ fact_of "lived_in" 1 (
        word "i"
        ∷ spaces
        ∷ alt (phrase ("used" ∷ "to" ∷ "live" ∷ [])) (word "lived")
        ∷ spaces
        ∷ word "in"
        ∷ spaces
        ∷ name 1
        ∷ bound
        ∷ [])
    ∷ fact_of "lived_in" 1 (
        one_of ("moved" ∷ "relocated" ∷ "moving" ∷ [])
        ∷ spaces
        ∷ opt (cat (word "to" ∷ spaces ∷ plus (one (λ c. not (is_space c))) ∷ spaces ∷ []))
        ∷ word "from"
        ∷ spaces
        ∷ name 1
        ∷ bound
        ∷ [])
    ∷ fact_of "from" 1 (i_am ∷ spaces ∷ word "from" ∷ spaces ∷ name 1 ∷ bound ∷ [])
    ∷ []

abbrev life_patterns : List Pattern
life_patterns =
    fact_of "owns_pet" 2 (
      word "my"
      ∷ spaces
      ∷ group 1 (one_of ("dog" ∷ "cat" ∷ "bird" ∷ "hamster" ∷ "rabbit" ∷ "fish" ∷ "turtle" ∷ []))
      ∷ spaces
      ∷ maybe ("is" ∷ [])
      ∷ maybe ("named" ∷ "called" ∷ [])
      ∷ name 2
      ∷ [])
    ∷ fact_of "owns_pet" 1
        (one_of ("walking" ∷ "walked" ∷ "feeding" ∷ "fed" ∷ []) ∷ spaces ∷ name 1 ∷ bound ∷ [])
    ∷ fact_of "dietary_restriction" 1 (
        i_am
        ∷ spaces
        ∷ group 1 (one_of ("vegetarian" ∷ "vegan" ∷ "pescatarian" ∷ "kosher" ∷ "halal" ∷ []))
        ∷ bound
        ∷ [])
    ∷ fact_of "dietary_restriction" 1 (
        word "i"
        ∷ spaces
        ∷ alt (word "don't") (phrase ("do" ∷ "not" ∷ []))
        ∷ spaces
        ∷ word "eat"
        ∷ spaces
        ∷ lower_text
        ∷ bound
        ∷ [])
    ∷ fact_of "allergic_to" 1 (
        i_am
        ∷ spaces
        ∷ maybe ("seriously" ∷ "severely" ∷ [])
        ∷ phrase ("allergic" ∷ "to" ∷ [])
        ∷ spaces
        ∷ lower_text
        ∷ bound
        ∷ [])
    ∷ fact_of "allergic_to" 1 (
        maybe ("seriously" ∷ "severely" ∷ [])
        ∷ phrase ("allergic" ∷ "to" ∷ [])
        ∷ spaces
        ∷ lower_text
        ∷ bound
        ∷ [])
    ∷ preference_of "likes"
        (any_of (word "love") (word "adore" ∷ phrase ("really" ∷ "like" ∷ []) ∷ []))
    ∷ preference_of "dislikes"
        (any_of (word "hate") (phrase ("can't" ∷ "stand" ∷ []) ∷ word "loathe" ∷ []))
    ∷ preference_of "prefers" (word "prefer")
    ∷ []

unfoldable pub patterns : List Pattern
unfolding is_word is_space
patterns = work_patterns ++ place_patterns ++ life_patterns
