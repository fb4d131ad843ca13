-- ===== src/Text/Laws.antt =====
-- Facts about `strip`, `lower`, `join` and substrings.
use higgsfield_memory_servic.Prelude.{
  ℕ, suc, ◌≤◌, ◌≡◌, refl, ap, true, [], ◌∷◌, ◌++◌, arith, nat_eq, length,
}
use higgsfield_memory_servic.Text.{
  Text, lstrip, rstrip, strip, lower, lower_char, starts_with, occurs_in,
}

-- Lower case is a fixed point of `lower`.
pub lower_idem : (s : Text) → lower (lower s) ≡ lower s
unfolding lower
lower_idem [] = refl
lower_idem (c ∷ s) = cc (char c, lower_idem s)
  where
    char : (c : ℕ) → lower_char (lower_char c) ≡ lower_char c
    char c = ground arith

pub length-lower : (s : Text) → length (lower s) ≡ length s
unfolding lower
length-lower [] = refl
length-lower (c ∷ s) = ap suc (length-lower s)

length-lstrip-le : (s : Text) → length (lstrip s) ≤ length s
unfolding lstrip
length-lstrip-le [] = omega arith
length-lstrip-le (c ∷ s) = ground (arith, length-lstrip-le s)

length-rstrip-le : (s : Text) → length (rstrip s) ≤ length s
unfolding rstrip
length-rstrip-le [] = omega arith
length-rstrip-le (c ∷ s) = ground (arith, length-rstrip-le s)

pub length-strip-le : (s : Text) → length (strip s) ≤ length s
unfolding strip
length-strip-le s = omega (arith, length-rstrip-le (lstrip s), length-lstrip-le s)

pub starts_with_refl : (s : Text) → starts_with s s ≡ true
unfolding starts_with
starts_with_refl [] = refl
starts_with_refl (c ∷ s) = ground (arith, starts_with_refl s)

-- Every text occurs in itself.
pub occurs_in_refl : (s : Text) → occurs_in s s ≡ true
unfolding occurs_in
occurs_in_refl [] = refl
occurs_in_refl (c ∷ s) = ground (arith, starts_with_refl (c ∷ s))

pub starts_with-append : (s t : Text) → starts_with (s ++ t) s ≡ true
unfolding starts_with
starts_with-append [] t = refl
starts_with-append (c ∷ s) t = ground (arith, starts_with-append s t)
