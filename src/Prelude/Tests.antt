-- ===== src/Prelude/Tests.antt =====
-- The conditional, Boolean tests on the native numbers, and one `==` for every type whose equality
-- can be decided.
use Prim.Native.Nat.{ℕ, compare, Ordering}
use Prim.Native.String.{String}
use mathlib.Core.Path.{◌≡◌, refl, ap}
use mathlib.Core.Logic.{◌⊎◌, inl, inr, ite, dite}
use mathlib.Core.Bool.{Bool, true, false, Bool-discrete, cond, ◌||◌, ◌&&◌}
use mathlib.Core.Option.{Option, none, some, none-ne-some, some-ne-none, some-injective}
use mathlib.Core.List.{List, [], ◌∷◌}
use native.Mathlib.Decide.{ℕ_discrete}
use native.Mathlib.Omega.{arith}
use text.Mathlib.Text
use text.Mathlib.TextEquality.{eq_iff}

infix 1 if◌then◌else◌
abbrev pub if◌then◌else◌ {ℓ} : {A : Type ℓ} → Bool → A → A → A
if b then x else y = cond b x y

-- These compute to `compare`, which the arithmetic tactics read.
abbrev pub ltb : ℕ → ℕ → Bool
ltb a b = elim (compare a b) [ Ordering.lt ↦ true | _ ↦ false ]

abbrev pub leb : ℕ → ℕ → Bool
leb a b = elim (compare a b) [ Ordering.gt ↦ false | _ ↦ true ]

pub Bool-cases : (b : Bool) → (b ≡ true) ⊎ (b ≡ false)
Bool-cases true = inl refl
Bool-cases false = inr refl

pub Option-cases {ℓ} : {A : Type ℓ} (o : Option A) → (o ≡ none) ⊎ ((a : A) × (o ≡ some a))
Option-cases none = inl refl
Option-cases (some a) = inr (a, refl)

pub record Eq {ℓ} (A : Type ℓ) : Type ℓ where
  pub dec : Discrete A

module _ {ℓ} {A : Type ℓ} ⦃e : Eq A⦄ where
  infix 50 ◌==◌
  abbrev pub ◌==◌ : A → A → Bool
  a == b = ite (e.dec a b) true false

  -- Python's `a in xs`.
  abbrev pub contains : List A → A → Bool
  contains [] a = false
  contains (x ∷ xs) a = a == x || contains xs a

  pub ==_refl : (a : A) → (a == a) ≡ true
  ==_refl a = ground arith

  pub eq_of_== : (a b : A) → (a == b) ≡ true → a ≡ b
  eq_of_== a b h = ground arith

-- A Boolean test that is sound and complete decides equality.
unfoldable pub dec_by_test {ℓ} :
    {A : Type ℓ} (test : A → A → Bool)
    → ((a b : A) → test a b ≡ true → a ≡ b)
    → ((a b : A) → a ≡ b → test a b ≡ true)
    → Discrete A
dec_by_test test sound complete a b =
    dite (Bool-discrete (test a b) true) (λ same. yes (sound a b same))
      (λ differ. no (λ p. differ (complete a b p)))

-- The decisions are shut in proofs, where a split on `a == b` yields the equation or its negation.
instance unfoldable pub nat_eq : Eq ℕ
unfolding ℕ_discrete
nat_eq = record { dec = ℕ_discrete }

instance unfoldable pub string_eq : Eq String
unfolding dec_by_test
string_eq = record { dec = dec_by_test Text.◌==◌ (λ s t. (eq_iff s t).0) (λ s t. (eq_iff s t).1) }

module _ {ℓ κ} {A : Type ℓ} {B : Type κ} ⦃e : Eq A⦄ ⦃f : Eq B⦄ where
  abbrev pair_test : A × B → A × B → Bool
  pair_test (a, b) (c, d) = a == c && b == d

  pub pair_sound : (p q : A × B) → pair_test p q ≡ true → p ≡ q
  pair_sound (a, b) (c, d) h = ground arith

  pub pair_complete : (p q : A × B) → p ≡ q → pair_test p q ≡ true
  pair_complete (a, b) (c, d) h = ground arith

  instance unfoldable pub pair_eq : Eq (A × B)
  unfolding dec_by_test
  pair_eq = record { dec = dec_by_test pair_test pair_sound pair_complete }

module _ {ℓ} {A : Type ℓ} ⦃e : Eq A⦄ where
  abbrev list_test : List A → List A → Bool
  list_test [] [] = true
  list_test (a ∷ as') (b ∷ bs) = a == b && list_test as' bs
  list_test _ _ = false

  pub list_sound : (p q : List A) → list_test p q ≡ true → p ≡ q
  list_sound [] [] h = refl
  list_sound [] (b ∷ bs) h = cc
  list_sound (a ∷ as') [] h = cc
  list_sound (a ∷ as') (b ∷ bs) h = ground (arith, list_sound as' bs)

  list_refl : (p : List A) → list_test p p ≡ true
  list_refl [] = refl
  list_refl (a ∷ as') = ground (arith, list_refl as')

  pub list_complete : (p q : List A) → p ≡ q → list_test p q ≡ true
  list_complete p q h = rw (← h) (list_refl p)

  instance unfoldable pub list_eq : Eq (List A)
  unfolding dec_by_test
  list_eq = record { dec = dec_by_test list_test list_sound list_complete }

  option_dec : Discrete (Option A)
  option_dec none none = yes refl
  option_dec none (some b) = no (none-ne-some b)
  option_dec (some a) none = no (some-ne-none a)
  option_dec (some a) (some b) =
      dite (e.dec a b) (λ p. yes (ap some p)) (λ n. no (λ p. n (some-injective a b p)))

  instance unfoldable pub option_eq : Eq (Option A)
  unfolding option_dec
  option_eq = record { dec = option_dec }
