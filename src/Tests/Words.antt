-- ===== src/Tests/Words.antt =====
-- Predicates and the words of queries at concrete inputs.
use higgsfield_memory_servic.Prelude.{
  true, ◌≡◌, refl, some, [], ◌∷◌, arith, nat_eq, string_eq, pair_eq, list_eq, option_eq,
}
use higgsfield_memory_servic.Text.{codes}
use higgsfield_memory_servic.Models.{fact, one}
use higgsfield_memory_servic.Taxonomy.{PredicateSpec, index, normalize_predicate}
use higgsfield_memory_servic.Taxonomy.Canonical.{
  is_canonical, normalize_predicate-canonical, normalize_predicate_known,
}
use higgsfield_memory_servic.Store.{scope_eq}
use higgsfield_memory_servic.QueryText.{stop, query_tokens}
use higgsfield_memory_servic.QueryText.Words.{IsWords, query_tokens-IsWords}

normalize_predicate-canonical_example :
    is_canonical (normalize_predicate (codes " Works At ")) ≡ true
normalize_predicate-canonical_example = normalize_predicate-canonical (codes " Works At ")

abbrev employer : PredicateSpec
employer = record {
  predicate = codes "employer";
  type = fact;
  multiplicity = one;
  description = codes "Current employer / company";
}

employer_listed : index (codes "employer") ≡ some employer
unfolding index
employer_listed = refl

normalize_predicate_known_example : normalize_predicate (codes "employer") ≡ codes "employer"
normalize_predicate_known_example =
    normalize_predicate_known (codes "employer") employer employer_listed

query_tokens-IsWords_example :
    IsWords 2 24 (query_tokens (codes "What city does Biscuit like? Biscuit!") 2 24)
query_tokens-IsWords_example =
    query_tokens-IsWords (codes "What city does Biscuit like? Biscuit!") 2 24 (omega arith)

biscuit_words :
    query_tokens (codes "What city does Biscuit like? Biscuit!") 2 24
    ≡ codes "city" ∷ codes "biscuit" ∷ codes "like" ∷ []
unfolding query_tokens stop list_eq nat_eq
biscuit_words = refl
