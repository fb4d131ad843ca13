-- ===== src/Taxonomy/Aliases.antt =====
-- `_ALIASES` of taxonomy.py.
use higgsfield_memory_servic.Prelude.{String, List, [], ◌∷◌}
use higgsfield_memory_servic.Text.{Text, codes}
use higgsfield_memory_servic.Dict.{Dict}

abbrev to : String → List String → Dict Text Text → Dict Text Text
to canonical [] rest = rest
to canonical (alias ∷ more) rest = (codes alias, codes canonical) ∷ to canonical more rest

unfoldable pub aliases : Dict Text Text
aliases =
    to "employer"
      ("works_at" ∷ "work_at" ∷ "works_for" ∷ "employed_by" ∷ "company" ∷ "current_company"
        ∷ "current_employer" ∷ [])
      (to "job_title" ("job" ∷ "role" ∷ "position" ∷ "title" ∷ []) (
        to "lives_in"
          ("lives" ∷ "lives_at" ∷ "live_in" ∷ "current_city" ∷ "city" ∷ "location" ∷ "based_in"
            ∷ [])
          (to "lived_in" ("moved_from" ∷ "used_to_live_in" ∷ []) (
            to "from" ("originally_from" ∷ "hometown" ∷ []) (
              to "partner" ("spouse" ∷ "husband" ∷ "wife" ∷ "boyfriend" ∷ "girlfriend" ∷ []) (
                to "owns_pet" ("has_pet" ∷ "pet" ∷ "dog" ∷ "cat" ∷ []) (
                  to "dietary_restriction" ("diet" ∷ "is_vegetarian" ∷ "is_vegan" ∷ []) (
                    to "allergic_to" ("allergy" ∷ []) (
                      to "likes" ("loves" ∷ "love" ∷ "enjoys" ∷ "fan_of" ∷ []) (
                        to "dislikes" ("hates" ∷ "dislike" ∷ "not_a_fan_of" ∷ []) (
                          to "prefers" ("prefer" ∷ []) (
                            to "opinion" ("thinks" ∷ "believes" ∷ "view_on" ∷ "opinion_on" ∷ [])
                              []))))))))))))
