-- ===== src/Sorting.antt =====
-- Stable sorting: Python's `list.sort`, and SQL's ORDER BY over the rows in scan order.
use higgsfield_memory_servic.Prelude.{
  ℕ, ◌+◌, ◌≡◌, refl, Bool, true, false, List, [], ◌∷◌, arith, if◌then◌else◌, count, All, Bool-cases,
  inl, inr, ◌∙◌, ap,
}

module _ {ℓ} {A : Type ℓ} (precedes : A → A → Bool) where
  -- Puts `x` before the first element that need not precede it.
  place : A → List A → List A
  place x [] = x ∷ []
  place x (y ∷ ys) = if precedes y x then y ∷ place x ys else x ∷ y ∷ ys

  -- Elements that neither precede the other keep their order.
  unfoldable pub sort : List A → List A
  unfolding place
  sort [] = []
  sort (x ∷ xs) = place x (sort xs)

  -- No element stands behind one that it precedes.
  abbrev pub IsSorted : List A → Type 0
  IsSorted [] = Unit
  IsSorted (x ∷ xs) = All (λ y. precedes y x ≡ false) xs × IsSorted xs

  module _ (P : A → Type 0) where
    All-place : (x : A) (xs : List A) → P x → All P xs → All P (place x xs)
    unfolding place
    All-place x [] h hs = (h, tt)
    All-place x (y ∷ ys) h hs = elim (Bool-cases (precedes y x)) [
      | inl e ↦ rw e (hs.0, All-place x ys h hs.1)
      | inr e ↦ rw e (h, hs)
    ]

    pub All-sort : (xs : List A) → All P xs → All P (sort xs)
    unfolding sort
    All-sort [] h = tt
    All-sort (x ∷ xs) h = All-place x (sort xs) h.0 (All-sort xs h.1)

  count-place :
      (p : A → Bool) (x : A) (xs : List A)
      → count p (place x xs) ≡ (if p x then 1 else 0) + count p xs
  unfolding place
  count-place p x [] = refl
  count-place p x (y ∷ ys) = ground (arith, count-place p x ys)

  -- Sorting keeps every element, as often.
  pub count-sort : (p : A → Bool) (xs : List A) → count p (sort xs) ≡ count p xs
  unfolding sort
  count-sort p [] = refl
  count-sort p (x ∷ xs) =
      count-place p x (sort xs) ∙ ap (λ (n : ℕ). (if p x then 1 else 0) + n) (count-sort p xs)

  -- What it means for the test to be an order.
  pub record IsPrecedence : Type ℓ where
    pub asym : (a b : A) → precedes a b ≡ true → precedes b a ≡ false
    pub trans : (a b c : A) → precedes b a ≡ false → precedes c b ≡ false → precedes c a ≡ false

  module _ (order : IsPrecedence) where
    behind_trans :
        (x y : A) (ys : List A)
        → precedes y x ≡ false
        → All (λ z. precedes z y ≡ false) ys
        → All (λ z. precedes z x ≡ false) ys
    behind_trans x y [] h hs = tt
    behind_trans x y (z ∷ zs) h hs = (order.trans x y z h hs.0, behind_trans x y zs h hs.1)

    place-IsSorted : (x : A) (xs : List A) → IsSorted xs → IsSorted (place x xs)
    unfolding place
    place-IsSorted x [] s = (tt, tt)
    place-IsSorted x (y ∷ ys) s = elim (Bool-cases (precedes y x)) [
      | inl e ↦ rw e (
        All-place (λ z. precedes z y ≡ false) x ys (order.asym y x e) s.0,
        place-IsSorted x ys s.1,
      )
      | inr e ↦ rw e ((e, behind_trans x y ys e s.0), s)
    ]

    pub sort-IsSorted : (xs : List A) → IsSorted (sort xs)
    unfolding sort
    sort-IsSorted [] = tt
    sort-IsSorted (x ∷ xs) = place-IsSorted x (sort xs) (sort-IsSorted xs)
