-- ===== src/Embedding/Aligned.antt =====
-- The loop that assigns the vectors puts each beside its text.
use mathlib.Core.List.{◌++◌, append_assoc}
use higgsfield_memory_servic.Prelude.{
  ℕ, zero, suc, ◌≡◌, refl, ap, sym, ◌∙◌, Option, none, some, List, [], ◌∷◌, arith, length,
  length-append,
}
use higgsfield_memory_servic.Text.{Text}
use higgsfield_memory_servic.Embedding.{nones, non_empty_idx, set, assign, or_nones}

pub length-nones : (V : Type 0) (n : ℕ) → length (nones {V = V} n) ≡ n
unfolding nones
length-nones V zero = refl
length-nones V (suc n) = ap suc (length-nones V n)

module _ {V : Type 0} where
  -- The reference: texts and vectors side by side, an empty text without one. `none` if there are
  -- more or fewer vectors than texts that are not empty.
  abbrev pub prepend : Option V → Option (List (Option V)) → Option (List (Option V))
  prepend x none = none
  prepend x (some out) = some (x ∷ out)

  abbrev pub aligned : List Text → List V → Option (List (Option V))
  aligned [] [] = some []
  aligned [] (v ∷ vs) = none
  aligned ([] ∷ texts) vs = prepend none (aligned texts vs)
  aligned ((c ∷ t) ∷ texts) [] = none
  aligned ((c ∷ t) ∷ texts) (v ∷ vs) = prepend (some v) (aligned texts vs)

  abbrev pub after : List (Option V) → Option (List (Option V)) → Option (List (Option V))
  after pre none = none
  after pre (some out) = some (pre ++ out)

  set-append :
      (pre out : List (Option V)) (x v : Option V)
      → set (length pre) v (pre ++ (x ∷ out)) ≡ (pre ++ (v ∷ [])) ++ out
  unfolding set
  set-append [] out x v = refl
  set-append (y ∷ pre) out x v = ap (λ l. y ∷ l) (set-append pre out x v)

  after-prepend :
      (pre : List (Option V)) (x : Option V) (o : Option (List (Option V)))
      → after (pre ++ (x ∷ [])) o ≡ after pre (prepend x o)
  after-prepend pre x none = refl
  after-prepend pre x (some out) = ap some (append_assoc pre (x ∷ []) out)

  -- One place further on.
  moved :
      (pre : List (Option V)) (x : Option V) (texts : List Text) (vs : List V)
      (out : List (Option V))
      → out ≡ (pre ++ (x ∷ [])) ++ nones (length texts)
      → assign vs (non_empty_idx (suc (length pre)) texts) out
        ≡ assign vs
            (non_empty_idx (length (pre ++ (x ∷ []))) texts)
            ((pre ++ (x ∷ [])) ++ nones (length texts))
  moved pre x texts vs out same =
      let longer : suc (length pre) ≡ length (pre ++ (x ∷ [])) =
        omega (arith, length-append pre (x ∷ [])) in
      λ i. assign vs (non_empty_idx (longer i) texts) (same i)

  -- The loop fills the places behind those that are filled already.
  pub assign-aligned :
      (texts : List Text) (vs : List V) (pre : List (Option V))
      → assign vs (non_empty_idx (length pre) texts) (pre ++ nones (length texts))
        ≡ after pre (aligned texts vs)
  unfolding assign non_empty_idx nones
  assign-aligned [] [] pre = refl
  assign-aligned [] (v ∷ vs) pre = refl
  assign-aligned ([] ∷ texts) vs pre =
      moved pre none texts vs (pre ++ (none ∷ nones (length texts)))
        (sym (append_assoc pre (none ∷ []) (nones (length texts))))
      ∙ assign-aligned texts vs (pre ++ (none ∷ []))
      ∙ after-prepend pre none (aligned texts vs)
  assign-aligned ((c ∷ t) ∷ texts) [] pre = refl
  assign-aligned ((c ∷ t) ∷ texts) (v ∷ vs) pre =
      moved pre (some v) texts vs (set (length pre) (some v) (pre ++ (none ∷ nones (length texts))))
        (set-append pre (nones (length texts)) none (some v))
      ∙ assign-aligned texts vs (pre ++ (some v ∷ []))
      ∙ after-prepend pre (some v) (aligned texts vs)

  abbrev pub Fits : ℕ → Option (List (Option V)) → Type 0
  Fits n none = Unit
  Fits n (some out) = length out ≡ n

  prepend-Fits :
      (x : Option V) (n : ℕ) (o : Option (List (Option V))) → Fits n o → Fits (suc n) (prepend x o)
  prepend-Fits x n none h = tt
  prepend-Fits x n (some out) h = ap suc h

  pub aligned-Fits : (texts : List Text) (vs : List V) → Fits (length texts) (aligned texts vs)
  aligned-Fits [] [] = refl
  aligned-Fits [] (v ∷ vs) = tt
  aligned-Fits ([] ∷ texts) vs = prepend-Fits none (length texts) _ (aligned-Fits texts vs)
  aligned-Fits ((c ∷ t) ∷ texts) [] = tt
  aligned-Fits ((c ∷ t) ∷ texts) (v ∷ vs) =
      prepend-Fits (some v) (length texts) _ (aligned-Fits texts vs)

  pub or_nones-Fits : (n : ℕ) (o : Option (List (Option V))) → Fits n o → length (or_nones n o) ≡ n
  or_nones-Fits n none h = length-nones V n
  or_nones-Fits n (some out) h = h
