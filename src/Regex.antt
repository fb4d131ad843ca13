-- ===== src/Regex.antt =====
-- Python's `re`, as far as the service uses it: a backtracking matcher that lists its matches in
-- the order in which `re` tries them.
pub mod Laws
use higgsfield_memory_servic.Prelude.{
  ℕ, zero, suc, String, Bool, true, false, ◌&&◌, ◌||◌, not, Option, none, some, List, [], ◌∷◌, ◌++◌,
  map, ◌-◌, ◌==◌, nat_eq, list_eq, leb, ltb, length, take, if◌then◌else◌,
}
use higgsfield_memory_servic.Text.{Text, codes, is_space, lower, is_empty}

pub data Re : Type 0 where
  -- `\b`, `^` and `$` with MULTILINE, and `$` without
  empty bound line_start line_end text_end : Re
  one : (ℕ → Bool) → Re
  seq alt : Re → Re → Re
  star : Re → Re
  group : ℕ → Re → Re

-- A place in the text: the character before it, the text behind it, and the groups so far.
pub record At : Type 0 where
  pub before : Option ℕ
  pub rest : Text
  pub groups : List (ℕ × Text)

-- `\w`, for the letters that `lower` knows.
unfoldable pub is_word : ℕ → Bool
is_word c =
    (leb 48 c && leb c 57)
    || (leb 65 c && leb c 90)
    || c == 95
    || (leb 97 c && leb c 122)
    || (leb 192 c && leb c 591)
    || (leb 880 c && leb c 1279)

abbrev word_at : Option ℕ → Bool
word_at none = false
word_at (some c) = is_word c

abbrev first : Text → Option ℕ
first [] = none
first (c ∷ _) = some c

abbrev breaks : Option ℕ → Bool
breaks none = true
breaks (some c) = c == 10

-- The end of the text, or of the text but for a line break.
abbrev ends : Text → Bool
ends [] = true
ends (c ∷ []) = c == 10
ends _ = false

abbrev differ : Bool → Bool → Bool
differ a b = if a then not b else b

abbrev flat_map : {A B : Type 0} → (A → List B) → List A → List B
flat_map f [] = []
flat_map f (x ∷ xs) = f x ++ flat_map f xs

-- Greedy repetition; a round that takes nothing ends it.
unfoldable pub repeat : ℕ → (At → List At) → At → List At
repeat zero step st = st ∷ []
repeat (suc fuel) step st =
    flat_map
      (λ s. elim (ltb (length s.rest) (length st.rest)) [ true ↦ repeat fuel step s | false ↦ [] ])
      (step st)
    ++ (st ∷ [])

-- Remembers the text between two places.
abbrev capture : ℕ → At → At → At
capture n st s = record s { groups = (n, take (length st.rest - length s.rest) st.rest) ∷ s.groups }

unfoldable pub run : Re → At → List At
unfolding repeat is_word nat_eq
run empty st = st ∷ []
run bound st = if differ (word_at st.before) (word_at (first st.rest)) then st ∷ [] else []
run line_start st = if breaks st.before then st ∷ [] else []
run line_end st = if breaks (first st.rest) then st ∷ [] else []
run text_end st = if ends st.rest then st ∷ [] else []
run (one p) st = elim st.rest [
  | [] ↦ []
  | c ∷ r ↦ if p c then record st { before = some c; rest = r } ∷ [] else []
]
run (seq a b) st = flat_map (run b) (run a st)
run (alt a b) st = run a st ++ run b st
run (star a) st = repeat (length st.rest) (run a) st
run (group n a) st = map (capture n st) (run a st)

unfoldable pub found_from : Re → Option ℕ → Text → Bool
unfolding run
found_from re before [] =
    not (is_empty (run re (record { before = before; rest = []; groups = [] })))
found_from re before (c ∷ s) =
    let later = found_from re (some c) s in
    if is_empty (run re (record { before = before; rest = c ∷ s; groups = [] }))
    then later
    else true

unfoldable pub found : Re → Text → Bool
unfolding found_from
found re text = found_from re none text

-- Notation: literals without regard to case, `\s+`, and alternatives.
abbrev pub lit : Text → Re
lit [] = empty
lit (c ∷ s) = seq (one (λ x. lower (x ∷ []) == lower (c ∷ []))) (lit s)

abbrev pub spaces : Re
spaces = seq (one is_space) (star (one is_space))

-- Words with `\s+` between them.
abbrev pub phrase : List String → Re
phrase [] = empty
phrase (w ∷ []) = lit (codes w)
phrase (w ∷ v ∷ ws) = seq (lit (codes w)) (seq spaces (phrase (v ∷ ws)))

abbrev pub any_of : Re → List Re → Re
any_of r [] = r
any_of r (q ∷ qs) = alt r (any_of q qs)

-- `r?`, and `r{0,n}`, both greedy
abbrev pub opt : Re → Re
opt r = alt r empty

abbrev pub at_most : ℕ → Re → Re
at_most zero r = empty
at_most (suc n) r = alt (seq r (at_most n r)) empty

abbrev pub plus : Re → Re
plus r = seq r (star r)

abbrev first_of : List At → Option At
first_of [] = none
first_of (st ∷ _) = some st

-- The matches from left to right, no two of which overlap: `skip` characters belong to the last one.
unfoldable pub matches : Re → Option ℕ → ℕ → Text → List At
unfolding run
matches re before (suc skip) [] = []
matches re before (suc skip) (c ∷ s) = matches re (some c) skip s
matches re before zero [] = take 1 (run re (record { before = before; rest = []; groups = [] }))
matches re before zero (c ∷ s) =
    elim (first_of (run re (record { before = before; rest = c ∷ s; groups = [] }))) [
      | none ↦ matches re (some c) 0 s
      | some st ↦ st ∷ matches re (some c) (length s - length st.rest) s
    ]

-- `re.finditer(re, text)`
unfoldable pub finditer : Re → Text → List At
unfolding matches
finditer re text = matches re none 0 text

abbrev pub find_group : ℕ → List (ℕ × Text) → Option Text
find_group n [] = none
find_group n ((k, t) ∷ groups) = if n == k then some t else find_group n groups

-- `m.group(n)`
abbrev pub group_text : ℕ → At → Option Text
group_text n st = find_group n st.groups

-- A run of 1 to 3 words that begin with a capital: `[A-Z][\w'-]+(?:\s+[A-Z][\w'-]+){0,2}`.
abbrev pub capital : Re
capital = one (λ c. leb 65 c && leb c 90)

abbrev pub name_char : ℕ → Bool
name_char c = is_word c || c == 39 || c == 45

abbrev pub cap_word : Re
cap_word = seq capital (plus (one name_char))

abbrev pub cap_words : Re
cap_words = seq cap_word (at_most 2 (seq spaces cap_word))

-- One after the other.
abbrev pub cat : List Re → Re
cat [] = empty
cat (r ∷ []) = r
cat (r ∷ q ∷ rs) = seq r (cat (q ∷ rs))

abbrev pub words_to_3 : Re
words_to_3 = seq (plus (one is_word)) (at_most 2 (seq spaces (plus (one is_word))))

-- `re.sub("", text)`, for a pattern that takes a character at least.
unfoldable pub removed : Re → Option ℕ → ℕ → Text → Text
unfolding run
removed re before skip [] = []
removed re before (suc skip) (c ∷ s) = removed re (some c) skip s
removed re before zero (c ∷ s) =
    elim (first_of (run re (record { before = before; rest = c ∷ s; groups = [] }))) [
      | none ↦ c ∷ removed re (some c) 0 s
      | some st ↦ removed re (some c) (length s - length st.rest) s
    ]
