-- ===== src/Text.antt =====
-- Python's `str` as the list of its code points, and the methods of it that the service calls.
-- `lower` knows the letters of ASCII, Latin-1, Greek and Cyrillic; other characters stay.
pub mod Laws
use Prim.Native.Char.{code}
use higgsfield_memory_servic.Prelude.{
  ℕ, zero, suc, ◌+◌, ◌-◌, ◌/◌, ◌%◌, String, Bool, true, false, ◌&&◌, ◌||◌, not, List, [], ◌∷◌, ◌++◌,
  map, ◌==◌, nat_eq, list_eq, leb, if◌then◌else◌, length, drop,
}

abbrev pub Text : Type 0
Text = List ℕ

-- The code points of a literal. `String` has its own `[]` and `∷`.
abbrev pub codes : String → Text
codes String.[] = []
codes (String.◌∷◌ c s) = code c ∷ codes s

abbrev between : ℕ → ℕ → ℕ → Bool
between lo hi c = leb lo c && leb c hi

-- `str.isspace` of one character.
unfoldable pub is_space : ℕ → Bool
is_space c =
    between 9 13 c
    || between 28 32 c
    || leb c 133 && leb 133 c
    || leb c 160 && leb 160 c
    || between 5760 5760 c
    || between 8192 8202 c
    || between 8232 8233 c
    || between 8239 8239 c
    || between 8287 8287 c
    || between 12288 12288 c

abbrev pub is_empty {ℓ} : {A : Type ℓ} → List A → Bool
is_empty [] = true
is_empty (_ ∷ _) = false

lstrip : Text → Text
lstrip [] = []
lstrip (c ∷ s) = elim (is_space c) [ true ↦ lstrip s | false ↦ c ∷ s ]

rstrip : Text → Text
rstrip [] = []
rstrip (c ∷ s) = let rest = rstrip s in if is_space c && is_empty rest then [] else c ∷ rest

-- `s.strip()`
unfoldable pub strip : Text → Text
unfolding lstrip rstrip is_space
strip s = rstrip (lstrip s)

lower_char : ℕ → ℕ
lower_char c =
    if between 65 90 c
      || between 192 214 c
      || between 216 222 c
      || between 913 929 c
      || between 931 939 c
      || between 1040 1071 c
    then c + 32
    else if between 1024 1039 c
    then c + 80
    else c

-- `s.lower()`
unfoldable pub lower : Text → Text
unfolding lower_char
lower = map lower_char

-- `s.startswith(prefix)`
unfoldable pub starts_with : Text → Text → Bool
starts_with s [] = true
starts_with [] (p ∷ ps) = false
starts_with (c ∷ s) (p ∷ ps) = c == p && starts_with s ps

-- `needle in s`
unfoldable pub occurs_in : Text → Text → Bool
unfolding starts_with
occurs_in needle [] = is_empty needle
occurs_in needle (c ∷ s) = starts_with (c ∷ s) needle || occurs_in needle s

-- `s.replace(old, new)` for single characters.
unfoldable pub replace_char : ℕ → ℕ → Text → Text
replace_char old new = map (λ c. if c == old then new else c)

-- `s.removeprefix(prefix)`
unfoldable pub removeprefix : Text → Text → Text
unfolding starts_with
removeprefix prefix s = if starts_with s prefix then drop (length prefix) s else s

-- `sep.join(parts)`
unfoldable pub join : Text → List Text → Text
join sep [] = []
join sep (p ∷ []) = p
join sep (p ∷ q ∷ ps) = p ++ (sep ++ join sep (q ∷ ps))

-- A number below 100, or below 10000, with leading zeros.
abbrev digit : ℕ → ℕ
digit n = 48 + n % 10

abbrev pub two_digits : ℕ → Text
two_digits n = digit (n / 10) ∷ digit n ∷ []

abbrev pub four_digits : ℕ → Text
four_digits n = digit (n / 1000) ∷ digit (n / 100) ∷ digit (n / 10) ∷ digit n ∷ []
