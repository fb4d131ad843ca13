-- ===== src/Tests/Reads.antt =====
-- Recall and search over tables that requests have led to.
use higgsfield_memory_servic.Prelude.{
  ℕ, ◌+◌, ◌-◌, ◌≤◌, false, arith, count, count-le-length, list_eq, ◌≡◌, refl, Option, none, some,
  List, [], ◌∷◌, All, length,
}
use higgsfield_memory_servic.Text.{Text, codes, is_empty, occurs_in}
use higgsfield_memory_servic.Numbers.{millionths, millionths-IsOrdered}
use higgsfield_memory_servic.Format.{Citation}
use higgsfield_memory_servic.Store.{user, Turn, Db, no_rows, scope_eq}
use higgsfield_memory_servic.Store.Sound.{IsSound}
use higgsfield_memory_servic.TurnRepo.{scope_for}
use higgsfield_memory_servic.MemoryRepo.{Scan}
use higgsfield_memory_servic.Ingest.{ingest_turn}
use higgsfield_memory_servic.Admin.{delete_user}
use higgsfield_memory_servic.Retrievers.{Ranking}
use higgsfield_memory_servic.Retrievers.Complete.{
  IsComplete, matching_turn, matching_memory, text_search-IsComplete,
}
use higgsfield_memory_servic.QueryText.{stop, to_or_tsquery}
use higgsfield_memory_servic.Recall.{recall}
use higgsfield_memory_servic.Recall.Database.{stored_reads}
use higgsfield_memory_servic.Recall.Scoped.{IsStored, recall-IsStored}
use higgsfield_memory_servic.Service.{Reach, start, later, turn_posted}
use higgsfield_memory_servic.Service.Invariant.{IsState, Reach-IsState}
use higgsfield_memory_servic.Service.Forgetting.{recall-delete_user}
use higgsfield_memory_servic.Tests.{noon}
use higgsfield_memory_servic.Tests.Tables.{any_order, munich, turn_in}
use higgsfield_memory_servic.Tests.Answers.{settings, asked, analysis}

abbrev pub table_order : Scan (Turn ℕ)
table_order = record { scan = λ ts. ts; count-scan = λ p ts. refl }

-- Texts match if they contain the query; vectors of equal length are equal.
abbrev pub ranking : Ranking ℕ
ranking = record {
  distance = λ a b. length a - length b + (length b - length a);
  similarity = λ d. 1000000 - d;
  turn_index = λ vec. record { near = λ ts. ts; count-near-le = λ p ts. omega arith };
  memory_index = λ vec. record { near = λ ms. ms; count-near-le = λ p ms. omega arith };
  turn_matches = λ q t. occurs_in q t.full_text;
  turn_rank = λ q t. 500000;
  memory_matches = λ q m. occurs_in q m.value;
  memory_rank = λ q m. 500000;
}

abbrev pub embed : Text → Option (List ℕ)
embed text = some (length text ∷ [])

-- After one turn.
abbrev pub posted : Db ℕ
posted = ingest_turn millionths any_order noon turn_in none ((munich, none) ∷ []) no_rows

pub posted-Reach : Reach millionths posted
posted-Reach = later start (turn_posted any_order noon turn_in none ((munich, none) ∷ []) no_rows)

Reach-IsState_example : IsState posted
Reach-IsState_example = Reach-IsState millionths posted-Reach

pub posted-IsSound : IsSound posted
posted-IsSound = (Reach-IsState millionths posted-Reach).sound

recall-IsStored_example :
    (out : Text × List (Citation ℕ)) × (recall millionths
        (stored_reads millionths ranking table_order any_order embed settings posted)
        none
        settings
        asked
        analysis
      ≡ some out)
    × All (λ c. IsStored posted (scope_for asked.user_id asked.session_id) c.turn_id) out.1
recall-IsStored_example =
    recall-IsStored millionths millionths-IsOrdered ranking table_order any_order embed settings
      posted posted-IsSound none asked analysis

recall-delete_user_example :
    recall millionths
      (stored_reads millionths ranking table_order any_order embed settings
        (delete_user (codes "u1") posted))
      none
      settings
      asked
      analysis
    ≡ some ([], [])
recall-delete_user_example =
    recall-delete_user millionths millionths-IsOrdered ranking table_order any_order embed settings
      none posted-Reach (codes "u1") asked analysis refl refl

abbrev where_is : Text
where_is = codes "Where is Munich?"

where_is_words : is_empty (to_or_tsquery where_is) ≡ false
unfolding to_or_tsquery stop list_eq
where_is_words = refl

few_matching_turns :
    count
      (matching_turn millionths ranking (user (codes "u1")) 12 posted (to_or_tsquery where_is))
      posted.turns
    ≤ 12
unfolding ingest_turn scope_eq
few_matching_turns = omega (
  arith,
  count-le-length
      (matching_turn millionths ranking (user (codes "u1")) 12 posted (to_or_tsquery where_is))
      posted.turns,
)

few_matching_memories :
    count
      (matching_memory millionths ranking (user (codes "u1")) 12 posted (to_or_tsquery where_is))
      posted.memories
    ≤ 12
unfolding ingest_turn scope_eq
few_matching_memories = omega (
  arith,
  count-le-length
      (matching_memory millionths ranking (user (codes "u1")) 12 posted (to_or_tsquery where_is))
      posted.memories,
)

text_search-IsComplete_example :
    IsComplete millionths ranking (user (codes "u1")) 12 posted table_order any_order where_is 0
text_search-IsComplete_example =
    text_search-IsComplete millionths ranking (user (codes "u1")) 12 posted table_order any_order
      where_is where_is_words few_matching_turns few_matching_memories 0
