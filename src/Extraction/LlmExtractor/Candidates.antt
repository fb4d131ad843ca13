-- ===== src/Extraction/LlmExtractor/Candidates.antt =====
-- A candidate that the extractor keeps is fit to be stored.
use higgsfield_memory_servic.Prelude.{
  Bool, true, false, ◌≡◌, refl, List, [], ◌∷◌, ◌++◌, arith, if◌then◌else◌, nat_eq, list_eq, All,
  Bool-cases, inl, inr,
}
use higgsfield_memory_servic.Text.{Text, codes, is_empty, strip}
use higgsfield_memory_servic.Numbers.{Floats, IsOrdered}
use higgsfield_memory_servic.Models.{EntityMention, MemoryCandidate}
use higgsfield_memory_servic.Taxonomy.Canonical.{is_canonical, normalize_predicate-canonical}
use higgsfield_memory_servic.Json.{
  Json, null, bool, num, huge, str, arr, obj, Fields, Outcome, ok, raised, Python, elements,
  get_list,
}
use higgsfield_memory_servic.Extraction.LlmExtractor.{
  or_else, clamp, get_text, mentions, candidate_with, with_entities, with_confidence,
}

module _ {F : Type 0} (fl : Floats F) where
  -- What a candidate is fit to be stored by.
  pub record IsWellformed (c : MemoryCandidate F) : Type 0 where
    pub subject : is_empty c.subject ≡ false
    pub object : is_empty c.object ≡ false
    pub value : is_empty c.value ≡ false
    pub predicate : is_canonical c.predicate ≡ true
    pub not_below : fl.lt c.confidence fl.zero_f ≡ false
    pub not_above : fl.lt (fl.decimal 1 0) c.confidence ≡ false

  -- Well-formed candidates, or the error that gets through.
  abbrev pub Extracted : Bool → Outcome (List (MemoryCandidate F)) → Type 0
  Extracted true out = out ≡ raised
  Extracted false out =
      (cands : List (MemoryCandidate F)) × (out ≡ ok cands) × All IsWellformed cands

  pub nothing-Extracted : Extracted false (ok [])
  nothing-Extracted = ([], refl, tt)

  module _ (order : IsOrdered fl) (zero_le_one : fl.lt (fl.decimal 1 0) fl.zero_f ≡ false)
      (py : Python F) where
    irreflexive : (x : F) → fl.lt x x ≡ false
    irreflexive x = ground (arith, order.lt_asym x x)

    at_most_one :
        (x : F)
        → fl.lt (fl.decimal 1 0) (if fl.lt x (fl.decimal 1 0) then x else fl.decimal 1 0) ≡ false
    at_most_one x = elim (Bool-cases (fl.lt x (fl.decimal 1 0))) [
      | inl less ↦ rw less (order.lt_asym x (fl.decimal 1 0) less)
      | inr more ↦ rw more (irreflexive (fl.decimal 1 0))
    ]

    clamp-not_below : (x : F) → fl.lt (clamp fl py x) fl.zero_f ≡ false
    unfolding clamp
    clamp-not_below x = positive_part (if fl.lt x (fl.decimal 1 0) then x else fl.decimal 1 0)
      where
        positive_part :
            (y : F) → fl.lt (if fl.lt fl.zero_f y then y else fl.zero_f) fl.zero_f ≡ false
        positive_part y = elim (Bool-cases (fl.lt fl.zero_f y)) [
          | inl above ↦ rw above (order.lt_asym fl.zero_f y above)
          | inr below ↦ rw below (irreflexive fl.zero_f)
        ]

    clamp-not_above : (x : F) → fl.lt (fl.decimal 1 0) (clamp fl py x) ≡ false
    unfolding clamp
    clamp-not_above x = positive_part (fl.lt fl.zero_f y) y (at_most_one x)
      where
        y : F
        y = if fl.lt x (fl.decimal 1 0) then x else fl.decimal 1 0

        positive_part :
            (b : Bool) (y : F)
            → fl.lt (fl.decimal 1 0) y ≡ false
            → fl.lt (fl.decimal 1 0) (if b then y else fl.zero_f) ≡ false
        positive_part true y h = h
        positive_part false y h = zero_le_one

    or_else_full : (s : Text) → is_empty (or_else (codes "user") s) ≡ false
    or_else_full [] = refl
    or_else_full (c ∷ s) = refl

    candidate-IsWellformed :
        (entities : List EntityMention) (fs : Fields F) (confidence : F)
        → is_empty (strip (get_text fl py "value" "" fs)) ≡ false
        → is_empty (strip (get_text fl py "object" "" fs)) ≡ false
        → IsWellformed (candidate_with fl py entities fs confidence)
    unfolding candidate_with
    candidate-IsWellformed entities fs confidence value object = record {
      subject = or_else_full (strip (get_text fl py "subject" "user" fs));
      object = object;
      value = value;
      predicate = normalize_predicate-canonical (get_text fl py "predicate" "" fs);
      not_below = clamp-not_below confidence;
      not_above = clamp-not_above confidence;
    }

    with_entities-Extracted :
        (envelope : List EntityMention) (fs : Fields F) (confidence : F) (own : Json F)
        → is_empty (strip (get_text fl py "value" "" fs)) ≡ false
        → is_empty (strip (get_text fl py "object" "" fs)) ≡ false
        → Extracted false (with_entities fl py envelope fs confidence (elements own))
    unfolding elements
    with_entities-Extracted envelope fs confidence own value object = by_kind own
      where
        fit :
            (es : List (Json F))
            → Extracted false (with_entities fl py envelope fs confidence (ok es))
        fit es = (
          _,
          refl,
          (candidate-IsWellformed (envelope ++ mentions fl py es) fs confidence value object, tt),
        )

        by_kind :
            (own : Json F)
            → Extracted false (with_entities fl py envelope fs confidence (elements own))
        by_kind null = nothing-Extracted
        by_kind (bool b) = nothing-Extracted
        by_kind (num x) = nothing-Extracted
        by_kind huge = nothing-Extracted
        by_kind (str t) = fit _
        by_kind (arr js) = fit _
        by_kind (obj gs) = fit _

    pub with_ok-Extracted :
        (envelope : List EntityMention) (fs : Fields F) (confidence : F)
        → Extracted false (with_confidence fl py envelope fs (ok confidence))
    with_ok-Extracted envelope fs confidence =
        elim (Bool-cases (is_empty (strip (get_text fl py "value" "" fs)))) [
          | inl none_given ↦ rw none_given nothing-Extracted
          | inr value ↦ elim (Bool-cases (is_empty (strip (get_text fl py "object" "" fs)))) [
            | inl none_given ↦ rw (value, none_given) nothing-Extracted
            | inr object ↦
                rw (value, object)
                  (with_entities-Extracted envelope fs confidence
                    (get_list fl (codes "entities") fs) value object)
          ]
        ]
