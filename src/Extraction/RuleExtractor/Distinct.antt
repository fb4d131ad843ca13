-- ===== src/Extraction/RuleExtractor/Distinct.antt =====
-- What the patterns find: no object twice for a predicate.
use mathlib.Core.List.{map-append}
use higgsfield_memory_servic.Prelude.{
  ◌≤◌, Bool, true, false, ◌||◌, ◌≡◌, refl, sym, ap, subst, ◌∙◌, ◌⊎◌, inl, inr, Option, none, some,
  List, [], ◌∷◌, ◌++◌, map, arith, ◌==◌, Eq, nat_eq, list_eq, pair_eq, if◌then◌else◌, ltb, length,
  length-take-le, contains, All, All-append, Bool-cases,
}
use higgsfield_memory_servic.Text.{Text, codes, is_empty, lower}
use higgsfield_memory_servic.Numbers.{Floats}
use higgsfield_memory_servic.Models.{MemoryCandidate}
use higgsfield_memory_servic.Regex.{At, finditer, group_text, found}
use higgsfield_memory_servic.Extraction.RuleExtractor.{
  clean_object, correction, Found, rule_candidate, add_found, add_match, add_matches, add_patterns,
  add_lines, user_lines, extract_via_rules,
}
use higgsfield_memory_servic.Extraction.RuleExtractor.Patterns.{Pattern, patterns}

-- No element twice.
abbrev pub Distinct : {A : Type 0} ⦃e : Eq A⦄ → List A → Type 0
Distinct [] = Unit
Distinct (x ∷ xs) = (contains xs x ≡ false) × Distinct xs

Distinct-append :
    {A : Type 0} ⦃e : Eq A⦄ (xs : List A) (x : A)
    → Distinct xs
    → contains xs x ≡ false
    → Distinct (xs ++ (x ∷ []))
Distinct-append [] x h new = (refl, tt)
Distinct-append (y ∷ ys) x (once, h) new =
    (contains-append ys y (ground arith) once, Distinct-append ys x h (ground arith))
  where
    contains-append :
        (l : List _) (z : _)
        → z == x ≡ false
        → contains l z ≡ false
        → contains (l ++ (x ∷ [])) z ≡ false
    contains-append [] z differs absent = ground arith
    contains-append (w ∷ l) z differs absent = ground (arith, contains-append l z)

module _ {F : Type 0} (fl : Floats F) where
  -- What a rule hands on.
  pub record IsRuled (c : MemoryCandidate F) : Type 0 where
    pub subject : c.subject ≡ codes "user"
    pub object : is_empty c.object ≡ false
    pub short : length c.object ≤ 80
    pub quote : length c.raw_quote ≤ 240
    pub confidence : (c.confidence ≡ fl.decimal 85 2) ⊎ (c.confidence ≡ fl.decimal 6 1)

  abbrev pub found_key : MemoryCandidate F → Text × Text
  found_key c = (c.predicate, lower c.object)

  -- The keys that were seen are those of the candidates.
  record IsFound (st : Found F) : Type 0 where
    keys : st.seen ≡ map found_key st.out
    distinct : Distinct st.seen
    ruled : All IsRuled st.out

  rule_candidate-IsRuled :
      (line : Text) (p : Pattern) (object : Text)
      → is_empty object ≡ false
      → length object ≤ 80
      → IsRuled (rule_candidate fl line p object)
  unfolding rule_candidate
  rule_candidate-IsRuled line p object full short = record {
    subject = refl;
    object = full;
    short = short;
    quote = length-take-le 240 line;
    confidence = either (found correction line);
  }
    where
      either :
          (b : Bool)
          → ((if b then fl.decimal 85 2 else fl.decimal 6 1) ≡ fl.decimal 85 2)
            ⊎ ((if b then fl.decimal 85 2 else fl.decimal 6 1) ≡ fl.decimal 6 1)
      either true = inl refl
      either false = inr refl

  add_found-IsFound :
      (line : Text) (p : Pattern) (object : Text) (st : Found F)
      → IsFound st
      → IsFound (add_found fl line p object st)
  unfolding add_found
  add_found-IsFound line p object st h =
      elim (Bool-cases (is_empty object || ltb 80 (length object))) [
        | inl unfit ↦ rw unfit h
        | inr fit ↦ rw fit (elim (Bool-cases (contains st.seen (p.predicate, lower object))) [
          | inl old ↦ rw old h
          | inr new ↦ rw new (record {
            keys =
                ap (λ ks. ks ++ ((p.predicate, lower object) ∷ [])) h.keys
                ∙ sym (map-append found_key st.out (rule_candidate fl line p object ∷ []));
            distinct = Distinct-append st.seen (p.predicate, lower object) h.distinct new;
            ruled = All-append IsRuled st.out (rule_candidate fl line p object ∷ []) h.ruled (
              rule_candidate-IsRuled line p object (ground (arith, fit)) (ground (arith, fit)),
              tt,
            );
          })
        ])
      ]

  add_match-IsFound :
      (line : Text) (p : Pattern) (o : Option Text) (st : Found F)
      → IsFound st
      → IsFound (add_match fl line p o st)
  add_match-IsFound line p none st h = h
  add_match-IsFound line p (some object) st h = by_text (is_empty object)
    where
      by_text :
          (b : Bool) → IsFound (if b then st else add_found fl line p (clean_object object) st)
      by_text true = h
      by_text false = add_found-IsFound line p (clean_object object) st h

  add_matches-IsFound :
      (line : Text) (p : Pattern) (ms : List At) (st : Found F)
      → IsFound st
      → IsFound (add_matches fl line p ms st)
  unfolding add_matches
  add_matches-IsFound line p [] st h = h
  add_matches-IsFound line p (m ∷ ms) st h =
      add_matches-IsFound line p ms _ (add_match-IsFound line p (group_text p.target m) st h)

  add_patterns-IsFound :
      (line : Text) (ps : List Pattern) (st : Found F)
      → IsFound st
      → IsFound (add_patterns fl line ps st)
  unfolding add_patterns
  add_patterns-IsFound line [] st h = h
  add_patterns-IsFound line (p ∷ ps) st h =
      add_patterns-IsFound line ps _ (add_matches-IsFound line p (finditer p.regex line) st h)

  add_lines-IsFound :
      (lines : List Text) (st : Found F) → IsFound st → IsFound (add_lines fl lines st)
  unfolding add_lines
  add_lines-IsFound [] st h = h
  add_lines-IsFound (line ∷ lines) st h =
      add_lines-IsFound lines _ (add_patterns-IsFound line patterns st h)

  -- For every text: no two candidates of the rules have the same predicate and the same object but
  -- for case; each is about the user, with an object that is neither empty nor longer than 80
  -- characters, a quote of at most 240, and one of the two confidences.
  pub extract_via_rules-Distinct :
      (messages_text : Text)
      → Distinct (map found_key (extract_via_rules fl messages_text))
        × All IsRuled (extract_via_rules fl messages_text)
  unfolding extract_via_rules
  extract_via_rules-Distinct messages_text =
      let h =
        add_lines-IsFound (user_lines messages_text) (record { out = []; seen = [] })
          (record { keys = refl; distinct = tt; ruled = tt }) in
      (subst Distinct h.keys h.distinct, h.ruled)
