-- ===== src/Fusion/Hits.antt =====
-- The grouping by source has the hits of the candidates, and no others.
use mathlib.Core.Option.{get_or}
use higgsfield_memory_servic.Prelude.{
  ℕ, suc, String, Bool, true, false, ◌||◌, ◌≡◌, refl, sym, ap, ◌∙◌, List, [], ◌∷◌, ◌++◌, nat_eq,
  string_eq, pair_eq, ◌==◌, any, if◌then◌else◌, Bool-cases, inl, inr,
}
use higgsfield_memory_servic.Numbers.{Floats}
use higgsfield_memory_servic.Candidate.{Candidate}
use higgsfield_memory_servic.Dict.{Dict, lookup, insert}
use higgsfield_memory_servic.Fusion.{Key, key_of, weight_of, bucket, group_by_source}
use higgsfield_memory_servic.Fusion.Events.{ranked, events, is_hit}

or_assoc : (a b c : Bool) → ((a || b) || c) ≡ (a || (b || c))
or_assoc true b c = refl
or_assoc false b c = refl

or_swap : (a b c : Bool) → ((a || b) || c) ≡ ((a || c) || b)
or_swap true b c = refl
or_swap false true true = refl
or_swap false true false = refl
or_swap false false true = refl
or_swap false false false = refl

or_false : (b : Bool) → (b || false) ≡ b
or_false true = refl
or_false false = refl

or_true_if : (b c : Bool) → (if b then true else c) ≡ (b || c)
or_true_if true c = refl
or_true_if false c = refl

pub any-append :
    {A : Type 0} (p : A → Bool) (xs ys : List A) → any p (xs ++ ys) ≡ (any p xs || any p ys)
any-append p [] ys = refl
any-append p (x ∷ xs) ys =
    ap (λ b. p x || b) (any-append p xs ys) ∙ sym (or_assoc (p x) (any p xs) (any p ys))

module _ {F : Type 0} (key : Key) where
  -- The candidate has the key.
  abbrev pub keyed : Candidate F → Bool
  keyed c = key == key_of c

  abbrev grouped : Dict String (List (Candidate F)) → Bool
  grouped = any (λ g. any keyed g.1)

  is_hit-ranked :
      (fl : Floats F) (weight : F) (rank : ℕ) (cands : List (Candidate F))
      (groups : Dict String (List (Candidate F)))
      → is_hit key (ranked weight rank cands ++ events fl groups)
        ≡ (any keyed cands || is_hit key (events fl groups))
  unfolding ranked
  is_hit-ranked fl weight rank [] groups = refl
  is_hit-ranked fl weight rank (c ∷ cands) groups =
      ap (λ b. if keyed c then true else b) (is_hit-ranked fl weight (suc rank) cands groups)
      ∙ or_true_if (keyed c) _
      ∙ sym (or_assoc (keyed c) (any keyed cands) _)

  is_hit-events :
      (fl : Floats F) (groups : Dict String (List (Candidate F)))
      → is_hit key (events fl groups) ≡ grouped groups
  unfolding events
  is_hit-events fl [] = refl
  is_hit-events fl ((source, cands) ∷ groups) =
      is_hit-ranked fl (weight_of fl source) 0 cands groups
      ∙ ap (λ b. any keyed cands || b) (is_hit-events fl groups)

  -- `buckets.setdefault(source, [])`
  abbrev old_of : String → Dict String (List (Candidate F)) → List (Candidate F)
  old_of source groups = get_or (lookup source groups) []

  old_of-here :
      (source k : String) (old : List (Candidate F)) (groups : Dict String (List (Candidate F)))
      → source == k ≡ true
      → old_of source ((k, old) ∷ groups) ≡ old
  unfolding lookup
  old_of-here source k old groups here = rw here refl

  old_of-later :
      (source k : String) (old : List (Candidate F)) (groups : Dict String (List (Candidate F)))
      → source == k ≡ false
      → old_of source ((k, old) ∷ groups) ≡ old_of source groups
  unfolding lookup
  old_of-later source k old groups later = rw later refl

  grouped-insert :
      (source : String) (c : Candidate F) (cands : List (Candidate F))
      (groups : Dict String (List (Candidate F)))
      → cands ≡ old_of source groups ++ (c ∷ [])
      → grouped (insert source cands groups) ≡ (grouped groups || keyed c)
  unfolding insert
  grouped-insert source c cands [] e =
      unfold lookup in
      ap (λ l. any keyed l || false) e ∙ or_false (keyed c || false) ∙ or_false (keyed c)
  grouped-insert source c cands ((k, old) ∷ groups) e = elim (Bool-cases (source == k)) [
    | inl here ↦ rw here (
        ap (λ l. any keyed l || grouped groups)
          (e ∙ ap (λ l. l ++ (c ∷ [])) (old_of-here source k old groups here))
        ∙ ap (λ b. b || grouped groups)
            (any-append keyed old (c ∷ []) ∙ ap (λ b. any keyed old || b) (or_false (keyed c)))
        ∙ or_swap (any keyed old) (keyed c) (grouped groups))
    | inr later ↦ rw later (
        ap (λ b. any keyed old || b)
          (grouped-insert source c cands groups
            (e ∙ ap (λ l. l ++ (c ∷ [])) (old_of-later source k old groups later)))
        ∙ sym (or_assoc (any keyed old) (grouped groups) (keyed c)))
  ]

  grouped-bucket :
      (cands : List (Candidate F)) (groups : Dict String (List (Candidate F)))
      → grouped (bucket cands groups) ≡ (grouped groups || any keyed cands)
  unfolding bucket
  grouped-bucket [] groups = sym (or_false (grouped groups))
  grouped-bucket (c ∷ cands) groups =
      grouped-bucket cands _
      ∙ ap (λ b. b || any keyed cands) (grouped-insert c.source c _ groups refl)
      ∙ or_assoc (grouped groups) (keyed c) (any keyed cands)

  -- A key is hit exactly if some candidate has it.
  pub is_hit-group_by_source :
      (fl : Floats F) (cands : List (Candidate F))
      → is_hit key (events fl (group_by_source cands)) ≡ any keyed cands
  unfolding group_by_source
  is_hit-group_by_source fl cands = is_hit-events fl (bucket cands []) ∙ grouped-bucket cands []
