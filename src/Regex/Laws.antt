-- ===== src/Regex/Laws.antt =====
-- What is left of a text when matches are taken out.
use higgsfield_memory_servic.Prelude.{
  ℕ, zero, suc, ◌-◌, ◌≤◌, ◌≡◌, refl, ap, Option, none, some, [], ◌∷◌, arith, length,
}
use higgsfield_memory_servic.Text.{Text}
use higgsfield_memory_servic.Regex.{Re, run, first_of, removed}

-- Some text with characters taken out, or the same one.
pub record IsShorter (r s : Text) : Type 0 where
  pub le : length r ≤ length s
  pub same : length r ≡ length s → r ≡ s

pub IsShorter-cons : (c : ℕ) (r s : Text) → IsShorter r s → IsShorter (c ∷ r) (c ∷ s)
IsShorter-cons c r s h = record {
  le = omega (arith, h.le);
  same = λ e. ap (λ t. c ∷ t) (h.same (omega (arith, e)));
}

pub IsShorter-drop : (c : ℕ) (r s : Text) → IsShorter r s → IsShorter r (c ∷ s)
IsShorter-drop c r s h = record {
  le = omega (arith, h.le);
  same = λ e. absurd (omega (arith, e, h.le));
}

pub removed-IsShorter :
    (re : Re) (before : Option ℕ) (skip : ℕ) (s : Text) → IsShorter (removed re before skip s) s
unfolding removed
removed-IsShorter re before skip [] = record { le = omega arith; same = λ e. refl }
removed-IsShorter re before (suc skip) (c ∷ s) =
    IsShorter-drop c _ s (removed-IsShorter re (some c) skip s)
removed-IsShorter re before zero (c ∷ s) =
    elim (first_of (run re (record { before = before; rest = c ∷ s; groups = [] })))
      as (λ o.
        IsShorter
          (elim o as (λ _. Text) [
            | none ↦ c ∷ removed re (some c) 0 s
            | some st ↦ removed re (some c) (length s - length st.rest) s
          ])
          (c ∷ s)) [
            | none ↦ IsShorter-cons c _ s (removed-IsShorter re (some c) 0 s)
            | some st ↦
                IsShorter-drop c _ s (removed-IsShorter re (some c) (length s - length st.rest) s)
          ]
