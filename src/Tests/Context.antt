-- ===== src/Tests/Context.antt =====
-- Recall and search at concrete inputs.
use mathlib.Core.Option.{get_or}
use higgsfield_memory_servic.Prelude.{
  ℕ, ◌+◌, ◌≤◌, ◌<◌, String, true, false, not, ◌&&◌, ◌||◌, ◌≡◌, ◌↔◌, ◌*◌, refl, none, some, List, [],
  ◌∷◌, ◌++◌, map, arith, ◌==◌, nat_eq, string_eq, pair_eq, list_eq, option_eq, if◌then◌else◌, All,
  count, filter, length, take,
}
use higgsfield_memory_servic.Text.{codes, is_empty, join}
use higgsfield_memory_servic.Numbers.{millionths, millionths-IsOrdered}
use higgsfield_memory_servic.Candidate.{Candidate}
use higgsfield_memory_servic.Dict.{lookup, NodupKeys}
use higgsfield_memory_servic.Sorting.{IsSorted}
use higgsfield_memory_servic.Models.{fact}
use higgsfield_memory_servic.Tokens.{approx_token_count, trim_to_tokens}
use higgsfield_memory_servic.Tokens.Laws.{count-trim_to_tokens, trim_to_tokens_iff}
use higgsfield_memory_servic.Fusion.{Key, key_of, higher, rrf_fuse}
use higgsfield_memory_servic.Fusion.Events.{events, is_hit}
use higgsfield_memory_servic.Fusion.Ranking.{IsEntry, rrf_fuse_lem}
use higgsfield_memory_servic.Fusion.Groups.{group_by_source_lem}
use higgsfield_memory_servic.Gate.{Signals, decide_gate}
use higgsfield_memory_servic.Gate.Rules.{has_hit, decide_gate_iff}
use higgsfield_memory_servic.Format.{StableFact}
use higgsfield_memory_servic.Assembler.{
  tier_budget, Item, blank, fit_lines, cite, newline, assemble,
}
use higgsfield_memory_servic.Assembler.Context.{count-assemble-le, assemble_no_signal}
use higgsfield_memory_servic.Assembler.Prefix.{fit_lines-take, second_line_dropped}
use higgsfield_memory_servic.Store.{scope_eq}
use higgsfield_memory_servic.Tests.{hit, hits, groups}

rrf_fuse_lem_example :
    (fused : List (Candidate ℕ × ℕ)) × (rrf_fuse millionths groups 60 ≡ some fused)
    × IsSorted (higher millionths) fused
    × All (IsEntry millionths groups 60) fused
    × ((key : Key)
        → count (λ x. key == key_of x.0) fused
          ≡ (if is_hit key (events millionths groups) then 1 else 0))
rrf_fuse_lem_example = rrf_fuse_lem millionths millionths-IsOrdered groups 60

group_by_source_lem_example :
    NodupKeys groups
    × ((source : String) → get_or (lookup source groups) [] ≡ filter (λ c. source == c.source) hits)
group_by_source_lem_example = group_by_source_lem hits

abbrev signals : Signals
signals = record {
  profile_relevant = true;
  is_open_ended_about_user = false;
  has_memory_signal = true;
  has_turn_signal = false;
  has_entity_match = false;
}

decide_gate_iff_example :
    ((decide_gate signals).tier1_open ≡ (if has_hit signals then true else false))
    × ((decide_gate signals).tier2_open ≡ (has_hit signals || (not false && false)))
decide_gate_iff_example = decide_gate_iff signals

count-trim_to_tokens_example :
    approx_token_count none (trim_to_tokens none (codes "hello, world") 2) ≤ 2
count-trim_to_tokens_example = count-trim_to_tokens (codes "hello, world") 2 (omega arith)

trim_to_tokens_iff_example :
    (trim_to_tokens none (codes "hello") 2 ≡ codes "hello") ↔ (length (codes "hello") ≤ 2 * 4)
trim_to_tokens_iff_example = trim_to_tokens_iff (codes "hello") 2

abbrev pub facts : List (StableFact ℕ)
facts =
    record {
      id = 1;
      type = fact;
      subject = codes "user";
      predicate = codes "lives_in";
      object = codes "Berlin";
      value = some (codes "Lives in Berlin");
      confidence = 900000;
      source_turn = some 7;
      updated_at = none;
      prior = none;
    }
    ∷ []

count-assemble-le_example :
    approx_token_count none
      (assemble millionths none facts hits hits
        (record { tier1_open = true; tier2_open = true })
        (tier_budget 50)
        true).0
    ≤ 50
count-assemble-le_example =
    count-assemble-le millionths facts hits hits (record { tier1_open = true; tier2_open = true })
      (tier_budget 50) true (omega arith)

abbrev items : List (Item ℕ)
items = map (λ c. record { line = c.content; cand = c; snippet = c.content }) hits

fit_lines-take_example :
    (n : ℕ) × (n ≤ length items)
    × ((fit_lines millionths none
          (tier_budget 40)
          (codes "## Relevant memories")
          items
          16
          blank).sections
        ≡ (if is_empty (map (λ it. it.line) (take n items))
            then []
            else (codes "## Relevant memories" ++ join newline (map (λ it. it.line) (take n items)))
              ∷ []))
    × ((fit_lines millionths none
          (tier_budget 40)
          (codes "## Relevant memories")
          items
          16
          blank).citations
        ≡ map (cite millionths none) (take n items))
fit_lines-take_example =
    fit_lines-take millionths none (tier_budget 40) (codes "## Relevant memories") items 16 blank

abbrev note : Item ℕ
note = record {
  line = codes "- A note of forty-eight characters, twelve tokens";
  cand = hit "graph" "memory" 1 700000 "";
  snippet = [];
}

under_cap :
    approx_token_count none (codes "## Header")
      + 1
      + (approx_token_count none note.line + 1)
      + (approx_token_count none note.line + 1)
    ≤ 40
unfolding approx_token_count
under_cap = omega arith

over_twice :
    40
    < approx_token_count none (codes "## Header")
      + 1
      + (approx_token_count none note.line + 1)
      + (approx_token_count none note.line + 1)
      + (approx_token_count none note.line + 1)
unfolding approx_token_count
over_twice = omega arith

second_line_dropped_example :
    (fit_lines millionths none
      (tier_budget 100)
      (codes "## Header")
      (note ∷ note ∷ [])
      40
      blank).sections
    ≡ (codes "## Header" ++ note.line) ∷ []
second_line_dropped_example =
    second_line_dropped millionths none (codes "## Header") note note (tier_budget 100) 40
      (omega arith) under_cap over_twice

-- A query about the user that nothing matches.
abbrev unmatched : Signals
unmatched = record {
  profile_relevant = true;
  is_open_ended_about_user = false;
  has_memory_signal = false;
  has_turn_signal = false;
  has_entity_match = false;
}

assemble_no_signal_example :
    assemble millionths none facts hits hits (decide_gate unmatched) (tier_budget 50) true
    ≡ ([], [])
assemble_no_signal_example =
    assemble_no_signal millionths none facts hits hits (tier_budget 50) true unmatched refl
