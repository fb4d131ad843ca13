-- ===== src/Numbers.antt =====
-- Python's `float`, an interface: the service adds, divides by positive integers, rounds and
-- compares scores, and the development needs no more of them than an order.
use higgsfield_memory_servic.Prelude.{
  ℕ, ◌+◌, ◌-◌, ◌*◌, ◌/◌, ◌^◌, ◌≡◌, Bool, true, false, not, arith, ltb, leb,
}

pub record Floats (F : Type 0) : Type 0 where
  pub zero_f : F
  pub add : F → F → F
  -- `x / n` for an integer n
  pub div_int : F → ℕ → F
  -- `decimal m e` is the literal m / 10 ^ e
  pub decimal : ℕ → ℕ → F
  -- `round(x, digits)`
  pub round_to : F → ℕ → F
  -- What pgvector reads back of the text `f"{x:.6f}"`: six decimals, in single precision.
  pub vector_element : F → F
  -- What a column of type REAL keeps of a number.
  pub real : F → F
  pub lt : F → F → Bool
  pub le : F → F → Bool

-- Numbers with no NaN among them are linearly preordered.
pub record IsOrdered {F : Type 0} (fl : Floats F) : Type 0 where
  pub le-not-lt : (a b : F) → fl.le a b ≡ not (fl.lt b a)
  pub lt_asym : (a b : F) → fl.lt a b ≡ true → fl.lt b a ≡ false
  pub ge_trans : (a b c : F) → fl.lt a b ≡ false → fl.lt b c ≡ false → fl.lt a c ≡ false

-- Millionths, as a number type to run the definitions with.
abbrev pub millionths : Floats ℕ
millionths = record {
  zero_f = 0;
  add = λ a b. a + b;
  div_int = λ a n. a / n;
  decimal = λ m e. m * 10 ^ (6 - e);
  round_to = λ a digits. (a + 10 ^ (6 - digits) / 2) / 10 ^ (6 - digits) * 10 ^ (6 - digits);
  vector_element = λ a. a;
  real = λ a. a;
  lt = ltb;
  le = leb;
}

pub millionths-IsOrdered : IsOrdered millionths
millionths-IsOrdered = record {
  le-not-lt = λ a b. ground arith;
  lt_asym = λ a b h. ground arith;
  ge_trans = λ a b c h k. ground arith;
}
