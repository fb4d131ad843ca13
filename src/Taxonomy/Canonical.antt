-- ===== src/Taxonomy/Canonical.antt =====
-- What normalizing a predicate guarantees.
use higgsfield_memory_servic.Prelude.{
  Bool, true, false, ◌||◌, ◌≡◌, refl, Option, none, some, List, [], ◌∷◌, ◌++◌, arith, ◌==◌, nat_eq,
  list_eq, if◌then◌else◌, find, take,
}
use higgsfield_memory_servic.Text.{Text, codes, is_empty, starts_with}
use higgsfield_memory_servic.Text.Laws.{starts_with-append}
use higgsfield_memory_servic.Dict.{Dict, lookup}
use higgsfield_memory_servic.Taxonomy.{
  PredicateSpec, other, predicates, index, slug, resolve, normalize_predicate,
}
use higgsfield_memory_servic.Taxonomy.Aliases.{aliases}

abbrev pub is_known : Option PredicateSpec → Bool
is_known none = false
is_known (some _) = true

-- A predicate of the closed list, or an open one.
abbrev pub is_canonical : Text → Bool
is_canonical p = is_known (index p) || starts_with p (codes "other:")

-- Every alias stands for a predicate of the closed list.
all_known : Dict Text Text → Bool
all_known [] = true
all_known ((_, p) ∷ d) = if is_known (index p) then all_known d else false

aliases_known : all_known aliases ≡ true
unfolding all_known index aliases
aliases_known = refl

lookup-known :
    (k c : Text) (d : Dict Text Text)
    → all_known d ≡ true
    → lookup k d ≡ some c
    → is_known (index c) ≡ true
unfolding all_known lookup
lookup-known k c [] h e = cc
lookup-known k c ((j, p) ∷ d) h e = ground (arith, lookup-known k c d)

or_right : (a b : Bool) → b ≡ true → (a || b) ≡ true
or_right a b h = ground arith

if_canonical :
    (b : Bool) (p q : Text)
    → is_canonical p ≡ true
    → is_canonical q ≡ true
    → is_canonical (if b then p else q) ≡ true
if_canonical true p q hp hq = hp
if_canonical false p q hp hq = hq

unknown_canonical : is_canonical (codes "other:unknown") ≡ true
unknown_canonical =
    or_right (is_known (index (codes "other:unknown"))) _
      (starts_with-append (codes "other:") (codes "unknown"))

resolve-canonical :
    (p : Text) (s : Option PredicateSpec) (a : Option Text)
    → index p ≡ s
    → lookup p aliases ≡ a
    → is_canonical (resolve p s a) ≡ true
resolve-canonical p (some s) a e f = rw e
resolve-canonical p none (some c) e f = rw (lookup-known p c aliases aliases_known f)
resolve-canonical p none none e f =
    or_right (is_known (index (other ++ take 48 p))) _ (starts_with-append other (take 48 p))

-- Every text is normalized to a predicate of the closed list or to one that begins with "other:".
pub normalize_predicate-canonical : (raw : Text) → is_canonical (normalize_predicate raw) ≡ true
unfolding normalize_predicate
normalize_predicate-canonical raw =
    if_canonical (is_empty raw) _ _ unknown_canonical
      (resolve-canonical (slug raw) (index (slug raw)) (lookup (slug raw) aliases) refl refl)

all_fixed : List PredicateSpec → Bool
all_fixed [] = true
all_fixed (s ∷ rest) =
    if normalize_predicate s.predicate == s.predicate then all_fixed rest else false

predicates_fixed : all_fixed predicates ≡ true
unfolding all_fixed predicates normalize_predicate slug index aliases lookup
predicates_fixed = refl

find-fixed :
    (p : Text) (s : PredicateSpec) (l : List PredicateSpec)
    → all_fixed l ≡ true
    → find (λ s. p == s.predicate) l ≡ some s
    → normalize_predicate p ≡ p
unfolding all_fixed
find-fixed p s [] h e = cc
find-fixed p s (t ∷ l) h e = ground (arith, find-fixed p s l)

-- A predicate that is a key of the closed list is left as it is.
pub normalize_predicate_known :
    (p : Text) (s : PredicateSpec) → index p ≡ some s → normalize_predicate p ≡ p
normalize_predicate_known p s h = find-fixed p s predicates predicates_fixed (unfold index in h)
