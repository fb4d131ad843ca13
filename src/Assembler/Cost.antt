-- ===== src/Assembler/Cost.antt =====
-- A measure of text that the token count bounds, and what the sections of a draft weigh.
use higgsfield_memory_servic.Prelude.{
  ℕ, ◌+◌, ◌*◌, ◌≤◌, ◌≡◌, refl, Option, none, List, [], ◌∷◌, ◌++◌, arith, length, length-append,
}
use higgsfield_memory_servic.Text.{Text, join}
use higgsfield_memory_servic.Tokens.{Encoding, approx_token_count}
use higgsfield_memory_servic.Assembler.{newline}

-- `weight` grows at most by addition, and a text that counts `n` tokens, with the one token that
-- the code adds for its line break, weighs at most `unit * (n + 1)`, the break included.
pub record Weighing (enc : Option Encoding) : Type 0 where
  pub unit : ℕ
  pub weight : Text → ℕ
  pub weight-append : (s t : Text) → weight (s ++ t) ≤ weight s + weight t
  pub weight-newline : weight newline ≤ 1
  pub weight-le-count : (t : Text) → weight t + 1 ≤ unit * (approx_token_count enc t + 1)

pub length-le-count : (t : Text) → length t + 1 ≤ 4 * (approx_token_count none t + 1)
unfolding approx_token_count
length-le-count t = omega arith

pub length-append-le : (s t : Text) → length (s ++ t) ≤ length s + length t
length-append-le s t = omega (arith, length-append s t)

pub length-newline : length newline ≤ 1
length-newline = omega arith

-- Without a tokenizer four characters count as a token.
abbrev pub by_characters : Weighing none
by_characters = record {
  unit = 4;
  weight = length;
  weight-append = length-append-le;
  weight-newline = length-newline;
  weight-le-count = length-le-count;
}

module _ {enc : Option Encoding} (w : Weighing enc) where
  abbrev pub lines_weight : List Text → ℕ
  lines_weight [] = 0
  lines_weight (l ∷ ls) = w.weight l + 1 + lines_weight ls

  abbrev pub sections_weight : List Text → ℕ
  sections_weight [] = 0
  sections_weight (s ∷ ss) = w.weight s + 2 + sections_weight ss

  -- The header and its line break, once there is a line.
  abbrev pub header_weight : Text → List Text → ℕ
  header_weight header [] = 0
  header_weight header (_ ∷ _) = w.weight header + 1

  pub lines_weight-append :
      (ls : List Text) (l : Text) → lines_weight (ls ++ l ∷ []) ≡ lines_weight ls + (w.weight l + 1)
  lines_weight-append [] l = omega arith
  lines_weight-append (_ ∷ ls) l = omega (arith, lines_weight-append ls l)

  pub sections_weight-append :
      (ss : List Text) (s : Text)
      → sections_weight (ss ++ s ∷ []) ≡ sections_weight ss + (w.weight s + 2)
  sections_weight-append [] s = omega arith
  sections_weight-append (_ ∷ ss) s = omega (arith, sections_weight-append ss s)

  pub header_weight-append :
      (header : Text) (ls : List Text) (l : Text)
      → header_weight header (ls ++ l ∷ []) ≡ w.weight header + 1
  header_weight-append header [] l = refl
  header_weight-append header (_ ∷ _) l = refl

  pub join-lines-le :
      (l : Text) (ls : List Text) → w.weight (join newline (l ∷ ls)) + 1 ≤ lines_weight (l ∷ ls)
  unfolding join
  join-lines-le l [] = omega arith
  join-lines-le l (m ∷ ls) = omega (
    arith,
    join-lines-le m ls,
    w.weight-append l (newline ++ join newline (m ∷ ls)),
    w.weight-append newline (join newline (m ∷ ls)),
    w.weight-newline,
  )

  pub join-sections-le :
      (s : Text) (ss : List Text)
      → w.weight (join (newline ++ newline) (s ∷ ss)) + 2 ≤ sections_weight (s ∷ ss)
  unfolding join
  join-sections-le s [] = omega arith
  join-sections-le s (t ∷ ss) = omega (
    arith,
    join-sections-le t ss,
    w.weight-append s ((newline ++ newline) ++ join (newline ++ newline) (t ∷ ss)),
    w.weight-append (newline ++ newline) (join (newline ++ newline) (t ∷ ss)),
    w.weight-append newline newline,
    w.weight-newline,
  )

  -- A header and the lines under it make a section that weighs no more than they do.
  pub section-le :
      (header l : Text) (ls : List Text)
      → w.weight (header ++ join newline (l ∷ ls)) + 2
        ≤ header_weight header (l ∷ ls) + lines_weight (l ∷ ls)
  section-le header l ls =
      omega (arith, join-lines-le l ls, w.weight-append header (join newline (l ∷ ls)))
