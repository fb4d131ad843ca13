-- ===== src/Extraction/RuleExtractor/Connectors.antt =====
-- The loop of `_trim_trailing_connectors` ends.
use higgsfield_memory_servic.Prelude.{
  ℕ, zero, suc, ◌≤◌, Bool, true, false, ◌&&◌, ◌≡◌, refl, sym, ap, ◌∙◌, none, [], ◌∷◌, arith, ◌==◌,
  nat_eq, list_eq, if◌then◌else◌, length, eq_of_==, ==_refl, Bool-cases, inl, inr,
}
use higgsfield_memory_servic.Text.{Text, is_space, is_empty}
use higgsfield_memory_servic.Regex.{removed}
use higgsfield_memory_servic.Regex.Laws.{IsShorter, IsShorter-cons, removed-IsShorter}
use higgsfield_memory_servic.Extraction.RuleExtractor.{
  trailing_connector, rstrip_by, trim_pass, trim_loop, trim_trailing_connectors,
}

rstrip_by-IsShorter : (goes : ℕ → Bool) (s : Text) → IsShorter (rstrip_by goes s) s
unfolding rstrip_by
rstrip_by-IsShorter goes [] = record { le = omega arith; same = λ e. refl }
rstrip_by-IsShorter goes (c ∷ s) =
    by_test (goes c && is_empty (rstrip_by goes s))
      (IsShorter-cons c (rstrip_by goes s) s (rstrip_by-IsShorter goes s))
  where
    by_test :
        (b : Bool)
        → IsShorter (c ∷ rstrip_by goes s) (c ∷ s)
        → IsShorter (if b then [] else c ∷ rstrip_by goes s) (c ∷ s)
    by_test true h = record { le = omega arith; same = λ e. absurd (omega (arith, e)) }
    by_test false h = h

trim_pass-IsShorter : (s : Text) → IsShorter (trim_pass s) s
unfolding trim_pass
trim_pass-IsShorter s =
    let r = removed trailing_connector none 0 s in
    let first = removed-IsShorter trailing_connector none 0 s in
    let second = rstrip_by-IsShorter is_space r in
    record {
      le = omega (arith, first.le, second.le);
      same = λ e.
          second.same (omega (arith, e, first.le, second.le))
          ∙ first.same (omega (arith, e, first.le, second.le));
    }

-- A pass that changes the text shortens it.
trim_pass-lt :
    (fuel : ℕ) (s : Text)
    → trim_pass s == s ≡ false
    → length s ≤ suc fuel
    → length (trim_pass s) ≤ fuel
trim_pass-lt fuel s changed le = ground (arith, trim_pass-IsShorter s, changed, le)

-- One round of the loop, by the outcome of its test.
trim_loop-suc :
    (fuel : ℕ) (s : Text) (b : Bool)
    → trim_pass s == s ≡ b
    → trim_loop (suc fuel) s
      ≡ (elim b as (λ _. Text) [ true ↦ s | false ↦ trim_loop fuel (trim_pass s) ])
unfolding trim_loop
trim_loop-suc fuel s b e =
    ap (λ t. elim t as (λ _. Text) [ true ↦ s | false ↦ trim_loop fuel (trim_pass s) ]) e

trim_loop-fixed :
    (fuel : ℕ) (s : Text) → length s ≤ fuel → trim_pass (trim_loop fuel s) ≡ trim_loop fuel s
trim_loop-fixed zero [] le = unfold trim_loop in unfold trim_pass removed rstrip_by in refl
trim_loop-fixed zero (c ∷ s) le = absurd (omega (arith, le))
trim_loop-fixed (suc fuel) s le = elim (Bool-cases (trim_pass s == s)) [
  | inl done ↦
      let step = trim_loop-suc fuel s true done in
      ap trim_pass step ∙ eq_of_== (trim_pass s) s done ∙ sym step
  | inr more ↦
      let step = trim_loop-suc fuel s false more in
      ap trim_pass step
      ∙ trim_loop-fixed fuel (trim_pass s) (trim_pass-lt fuel s more le)
      ∙ sym step
]

trim_loop-nil : (fuel : ℕ) → trim_loop fuel [] ≡ []
unfolding trim_loop
trim_loop-nil zero = refl
trim_loop-nil (suc fuel) =
    trim_loop-suc fuel [] true (unfold trim_pass removed rstrip_by in ==_refl {A = Text} [])

-- More fuel than the length of the text makes no difference.
trim_loop-enough :
    (fuel more : ℕ) (s : Text)
    → length s ≤ fuel
    → length s ≤ more
    → trim_loop fuel s ≡ trim_loop more s
trim_loop-enough zero zero s p q = refl
trim_loop-enough fuel more [] p q = trim_loop-nil fuel ∙ sym (trim_loop-nil more)
trim_loop-enough zero (suc more) (c ∷ s) p q = absurd (omega (arith, p))
trim_loop-enough (suc fuel) zero (c ∷ s) p q = absurd (omega (arith, q))
trim_loop-enough (suc fuel) (suc more) (c ∷ s) p q =
    elim (Bool-cases (trim_pass (c ∷ s) == (c ∷ s))) [
      | inl done ↦ trim_loop-suc fuel (c ∷ s) true done ∙ sym (trim_loop-suc more (c ∷ s) true done)
      | inr again ↦
          trim_loop-suc fuel (c ∷ s) false again
          ∙ trim_loop-enough fuel more (trim_pass (c ∷ s)) (trim_pass-lt fuel (c ∷ s) again p)
              (trim_pass-lt more (c ∷ s) again q)
          ∙ sym (trim_loop-suc more (c ∷ s) false again)
    ]

-- The loop ends: as many passes as the text has characters are enough, more of them change nothing,
-- and the text that is left is one that a further pass does not change.
pub trim_trailing_connectors-fixed :
    (fuel : ℕ) (s : Text)
    → length s ≤ fuel
    → (trim_loop fuel s ≡ trim_trailing_connectors s)
      × (trim_pass (trim_trailing_connectors s) ≡ trim_trailing_connectors s)
unfolding trim_trailing_connectors
trim_trailing_connectors-fixed fuel s enough = (
  trim_loop-enough fuel (length s) s enough (omega arith),
  trim_loop-fixed (length s) s (omega arith),
)
