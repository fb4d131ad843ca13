-- ===== src/QueryText.antt =====
-- src/memory_service/util/text.py: the content words of a query, and the text query made of them.
pub mod Words
use higgsfield_memory_servic.Prelude.{
  ℕ, ◌≤◌, String, Bool, true, false, ◌&&◌, ◌||◌, not, List, [], ◌∷◌, ◌++◌, map, ◌==◌, nat_eq,
  list_eq, leb, ltb, if◌then◌else◌, length, contains,
}
use higgsfield_memory_servic.Text.{Text, codes, is_empty, lower, join}

unfoldable pub stop : List Text
stop = map codes (
    "the" ∷ "a" ∷ "an" ∷ "is" ∷ "are" ∷ "was" ∷ "were" ∷ "be" ∷ "to" ∷ "of" ∷ "in" ∷ "on" ∷ "for"
    ∷ "and" ∷ "or" ∷ "but" ∷ "with" ∷ "this" ∷ "that" ∷ "it" ∷ "its" ∷ "as" ∷ "at" ∷ "by" ∷ "from"
    ∷ "into" ∷ "onto" ∷ "than" ∷ "then" ∷ "so" ∷ "if" ∷ "yet" ∷ "not" ∷ "what" ∷ "who" ∷ "whom"
    ∷ "whose" ∷ "where" ∷ "when" ∷ "why" ∷ "how" ∷ "which" ∷ "do" ∷ "does" ∷ "did" ∷ "has" ∷ "have"
    ∷ "had" ∷ "can" ∷ "could" ∷ "will" ∷ "would" ∷ "should" ∷ "may" ∷ "might" ∷ "must" ∷ "shall"
    ∷ "ought" ∷ "i" ∷ "me" ∷ "my" ∷ "mine" ∷ "you" ∷ "your" ∷ "yours" ∷ "he" ∷ "him" ∷ "his" ∷ "she"
    ∷ "her" ∷ "hers" ∷ "it" ∷ "its" ∷ "they" ∷ "them" ∷ "their" ∷ "theirs" ∷ "we" ∷ "us" ∷ "our"
    ∷ "ours" ∷ "any" ∷ "some" ∷ "tell" ∷ "about" ∷ "right" ∷ "now" ∷ "current" ∷ "currently"
    ∷ "please" ∷ "thanks" ∷ "thank" ∷ "hi" ∷ "hey" ∷ "hello" ∷ "sure" ∷ "yes" ∷ "no" ∷ "user"
    ∷ "assistant" ∷ "tool" ∷ "system" ∷ [])

abbrev is_letter : ℕ → Bool
is_letter c = leb 65 c && leb c 90 || leb 97 c && leb c 122

abbrev is_word_char : ℕ → Bool
is_word_char c = is_letter c || leb 48 c && leb c 57 || c == 95 || c == 45

-- A match of `_WORD` has two characters at least.
abbrev emit : Text → List Text → List Text
emit run rest = if ltb 1 (length run) then run ∷ rest else rest

-- `_WORD.finditer`: `run` is the match so far, empty outside of one.
unfoldable pub scan_words : Text → Text → List Text
unfolding nat_eq
scan_words run [] = emit run []
scan_words [] (c ∷ s) = elim (is_letter c) [
  | true ↦ scan_words (c ∷ []) s
  | false ↦ scan_words [] s
]
scan_words (r ∷ run) (c ∷ s) = elim (is_word_char c) [
  | true ↦ scan_words (r ∷ (run ++ (c ∷ []))) s
  | false ↦ emit (r ∷ run) (scan_words [] s)
]

-- The three tests that skip a word; `seen` holds what `out` holds.
abbrev pub skips : ℕ → List Text → Text → Bool
skips min_len out t = ltb (length t) min_len || contains stop t || contains out t

-- The loop of `query_tokens`.
unfoldable pub collect_words : ℕ → ℕ → List Text → List Text → List Text
unfolding lower
collect_words min_len max_tokens out [] = out
collect_words min_len max_tokens out (w ∷ ws) =
    let t = lower w in
    let longer = out ++ (t ∷ []) in
    elim (skips min_len out t) [
      | true ↦ collect_words min_len max_tokens out ws
      | false ↦ elim (leb max_tokens (length longer)) [
        | true ↦ longer
        | false ↦ collect_words min_len max_tokens longer ws
      ]
    ]

unfoldable pub query_tokens : Text → ℕ → ℕ → List Text
unfolding scan_words collect_words
query_tokens query min_len max_tokens = collect_words min_len max_tokens [] (scan_words [] query)

unfoldable pub to_or_tsquery : Text → Text
unfolding query_tokens join
to_or_tsquery query = join (codes " | ") (query_tokens query 2 24)
