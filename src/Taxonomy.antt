-- ===== src/Taxonomy.antt =====
-- src/memory_service/extraction/taxonomy.py: the predicates, their multiplicities and aliases.
pub mod Aliases
pub mod Canonical
use higgsfield_memory_servic.Prelude.{
  ℕ, String, Bool, true, false, ◌||◌, Option, none, some, List, [], ◌∷◌, ◌++◌, map, ◌==◌, nat_eq,
  list_eq, if◌then◌else◌, any, find, take,
}
use higgsfield_memory_servic.Text.{
  Text, codes, is_empty, strip, lower, replace_char, removeprefix, join,
}
use higgsfield_memory_servic.Dict.{lookup}
use higgsfield_memory_servic.Models.{
  MemoryType, fact, preference, opinion, event, Multiplicity, one, many,
}
use Aliases.{aliases}

pub record PredicateSpec : Type 0 where
  pub predicate : Text
  pub type : MemoryType
  pub multiplicity : Multiplicity
  pub description : Text

abbrev spec : String → MemoryType → Multiplicity → String → PredicateSpec
spec p t m d = record { predicate = codes p; type = t; multiplicity = m; description = codes d }

unfoldable pub predicates : List PredicateSpec
predicates =
    spec "employer" fact one "Current employer / company"
    ∷ spec "job_title" fact one "Current role or job title"
    ∷ spec "work_field" fact one "Broad professional field (engineering, design, finance)"
    ∷ spec "previous_employer" fact many "A past employer (for history; never overwrites employer)"
    ∷ spec "lives_in" fact one "Current city/place of residence"
    ∷ spec "lived_in" fact many "Past place of residence"
    ∷ spec "from" fact one "Where the user is from / hometown"
    ∷ spec "timezone" fact one "User's timezone"
    ∷ spec "name" fact one "User's preferred name"
    ∷ spec "age" fact one "User's age, if stated"
    ∷ spec "partner" fact one "Spouse/partner"
    ∷ spec "family_member" fact many "Named family members"
    ∷ spec "friend" fact many "Named friends"
    ∷ spec "coworker" fact many "Named coworkers"
    ∷ spec "owns_pet" fact many
        "Has a pet — object is the pet's identifier ('dog:Biscuit' or just 'Biscuit')"
    ∷ spec "pet_name" fact many "A pet's name"
    ∷ spec "pet_type" fact many "A pet's species (dog, cat, …)"
    ∷ spec "dietary_restriction" fact many "Vegetarian, vegan, kosher, halal, etc."
    ∷ spec "allergic_to" fact many "Allergy or intolerance"
    ∷ spec "medical_condition" fact many "Stable medical condition the user mentions"
    ∷ spec "likes" preference many "Things the user likes"
    ∷ spec "dislikes" preference many "Things the user dislikes"
    ∷ spec "prefers" preference many "Stated preference between options"
    ∷ spec "avoids" preference many "Things the user actively avoids"
    ∷ spec "hobby" preference many "Hobbies / pastimes"
    ∷ spec "communication_style" preference one
        "How they want to be talked to (concise, formal, etc.)"
    ∷ spec "opinion" opinion many "Stated viewpoint or take on something — object is the topic"
    ∷ spec "attended" event many "Attended an event"
    ∷ spec "did" event many "Did/experienced something noteworthy"
    ∷ []

-- `PREDICATE_INDEX.get(p)`
unfoldable pub index : Text → Option PredicateSpec
unfolding predicates list_eq nat_eq
index p = find (λ s. p == s.predicate) predicates

abbrev pub other : Text
other = codes "other:"

-- The spelling under which a predicate is looked up.
unfoldable pub slug : Text → Text
unfolding strip lower replace_char removeprefix nat_eq
slug raw = removeprefix other (replace_char b'-' b'_' (replace_char b' ' b'_' (lower (strip raw))))

abbrev pub resolve : Text → Option PredicateSpec → Option Text → Text
resolve p (some _) _ = p
resolve p none (some canonical) = canonical
resolve p none none = other ++ take 48 p

unfoldable pub normalize_predicate : Text → Text
normalize_predicate raw =
    if is_empty raw
    then codes "other:unknown"
    else resolve (slug raw) (index (slug raw)) (lookup (slug raw) aliases)

abbrev or_open_ended : Text → Option PredicateSpec → PredicateSpec
or_open_ended p (some s) = s
or_open_ended p none = record {
  predicate = p;
  type = fact;
  multiplicity = one;
  description = codes "open-ended fact";
}

unfoldable pub spec_for : Text → PredicateSpec
unfolding index
spec_for predicate = or_open_ended predicate (index predicate)

abbrev pub type_name : MemoryType → Text
type_name fact = codes "fact"
type_name preference = codes "preference"
type_name opinion = codes "opinion"
type_name event = codes "event"

abbrev multiplicity_name : Multiplicity → Text
multiplicity_name one = codes "one"
multiplicity_name many = codes "many"

abbrev prompt_line : PredicateSpec → Text
prompt_line s =
    codes "- `"
    ++ (s.predicate
        ++ (codes "` ("
            ++ (type_name s.type
                ++ (codes ", multiplicity="
                    ++ (multiplicity_name s.multiplicity ++ (codes "): " ++ s.description))))))

unfoldable pub predicates_prompt_block : Text
unfolding predicates join
predicates_prompt_block = join (10 ∷ []) (
    (codes "Preferred predicates (use one of these whenever the fact fits):"
      ∷ map prompt_line predicates)
    ++ ([]
        ∷ codes "If the fact doesn't fit any predicate above, use `other:<short_snake_case_topic>`."
        ∷ []))
