-- ===== src/Assembler.antt =====
-- src/memory_service/services/assembler.py: the context under a token budget. The gate is in
-- Gate.antt, the lines are in Format.antt. A float share of the budget is held in tenths:
-- int(n * 0.4) is n * 4 / 10 for every `max_tokens` that a request may carry.
pub mod Cost
pub mod Budget
pub mod Context
pub mod Prefix
pub mod Cited
use mathlib.Core.Option.{get_or}
use higgsfield_memory_servic.Prelude.{
  ℕ, ◌+◌, ◌-◌, ◌*◌, ◌/◌, min, String, Bool, true, false, ◌&&◌, ◌||◌, not, Option, none, some, List,
  [], ◌∷◌, ◌++◌, map, ◌==◌, nat_eq, string_eq, list_eq, leb, ltb, if◌then◌else◌, filter, drop,
  contains,
}
use higgsfield_memory_servic.Text.{Text, codes, is_empty, strip, starts_with, replace_char, join}
use higgsfield_memory_servic.Numbers.{Floats}
use higgsfield_memory_servic.Tokens.{Encoding, approx_token_count, trim_to_tokens}
use higgsfield_memory_servic.Datetime.{Datetime, iso_date}
use higgsfield_memory_servic.Candidate.{Prior, Value, Metadata, Candidate}
use higgsfield_memory_servic.Dict.{lookup}
use higgsfield_memory_servic.Models.{MemoryType}
use higgsfield_memory_servic.Format.{
  StableFact, Citation, or_empty, format_stable_fact, stable_fact_citation, format_memory_candidate,
  format_turn_candidate,
}
use higgsfield_memory_servic.Gate.{GateState}

pub record TierBudget : Type 0 where
  pub max_tokens : ℕ
  pub tier1_tenths : ℕ
  pub tier2_tenths : ℕ

abbrev pub tier_budget : ℕ → TierBudget
tier_budget max_tokens = record { max_tokens = max_tokens; tier1_tenths = 4; tier2_tenths = 4 }

abbrev pub tier1 : TierBudget → ℕ
tier1 b = b.max_tokens * b.tier1_tenths / 10

abbrev pub tier2 : TierBudget → ℕ
tier2 b = b.max_tokens * b.tier2_tenths / 10

-- What `assemble` and its helper keep between the tiers.
pub record Draft (F : Type 0) : Type 0 where
  pub sections : List Text
  pub citations : List (Citation F)
  pub used : ℕ

-- The variables of a tier's loop; `citations` and `used` are those of the draft.
pub record Section (F : Type 0) : Type 0 where
  pub local : List Text
  pub per_item_used : ℕ
  pub citations : List (Citation F)
  pub used : ℕ

-- A line of tiers 2 and 3 with its citation pair.
pub record Item (F : Type 0) : Type 0 where
  pub line : Text
  pub cand : Candidate F
  pub snippet : Text

abbrev pub newline : Text
newline = 10 ∷ []

abbrev pub open_section : {F : Type 0} → Draft F → Section F
open_section d = record { local = []; per_item_used = 0; citations = d.citations; used = d.used }

-- `if local: sections.append(header + "\n".join(local))`
unfoldable pub close_section : {F : Type 0} → Text → Draft F → Section F → Draft F
close_section header d s = record {
  sections =
      if is_empty s.local
      then d.sections
      else d.sections ++ ((header ++ join newline s.local) ∷ []);
  citations = s.citations;
  used = s.used;
}

abbrev pub blank : {F : Type 0} → Draft F
blank = record { sections = []; citations = []; used = 0 }

-- The early return on a closed gate, and the end of `assemble`.
unfoldable pub finish : {F : Type 0} → GateState → Draft F → Text × List (Citation F)
unfolding join
finish gate d =
    if not gate.tier1_open && not gate.tier2_open
    then ([], [])
    else if is_empty d.sections
    then ([], [])
    else (join (newline ++ newline) d.sections, d.citations)

module _ {F : Type 0} (fl : Floats F) (enc : Option Encoding) where
  abbrev pub line_cost : Text → ℕ
  line_cost text = approx_token_count enc text + 1

  -- A turn is cited by its id, a memory by the turn it was extracted from, if that is known.
  abbrev pub cited_id : Candidate F → ℕ
  cited_id c = if c.kind == "turn" then c.id else get_or c.source_turn c.id

  abbrev pub cite : Item F → Citation F
  cite it = record {
    turn_id = cited_id it.cand;
    score = fl.round_to it.cand.score 4;
    snippet = it.snippet;
  }

  abbrev pub add_item : ℕ → Item F → Section F → Section F
  add_item overhead it s = record {
    local = s.local ++ (it.line ∷ []);
    per_item_used = s.per_item_used + line_cost it.line;
    citations = s.citations ++ (cite it ∷ []);
    used = s.used + (line_cost it.line + overhead);
  }

  -- The loop of `_fit_lines`; the cases of the `elim` are the break and the rest of the body.
  unfoldable pub fit_loop : ℕ → ℕ → ℕ → List (Item F) → Section F → Section F
  unfolding approx_token_count string_eq
  fit_loop cap header_tokens i [] s = s
  fit_loop cap header_tokens i (it ∷ items) s =
      let overhead = if leb i 0 && is_empty s.local then header_tokens else 0 in
      elim (ltb cap (s.used + overhead + s.per_item_used + line_cost it.line)) [
        | true ↦ s
        | false ↦ fit_loop cap header_tokens (i + 1) items (add_item overhead it s)
      ]

  -- `_fit_lines`
  unfoldable pub fit_lines : TierBudget → Text → List (Item F) → ℕ → Draft F → Draft F
  unfolding fit_loop close_section join
  fit_lines budget header items soft_cap d =
      let absolute_cap = min (d.used + soft_cap) budget.max_tokens in
      close_section header d (fit_loop absolute_cap (line_cost header) 0 items (open_section d))

  abbrev pub add_citation : Option (Citation F) → List (Citation F) → List (Citation F)
  add_citation none citations = citations
  add_citation (some c) citations = citations ++ (c ∷ [])

  abbrev pub add_fact : ℕ → StableFact F → Text → Section F → Section F
  add_fact overhead f line s = record s {
    local = s.local ++ (line ∷ []);
    citations = add_citation (stable_fact_citation f line) s.citations;
    used = s.used + (line_cost line + overhead);
  }

  -- The loop of tier 1.
  unfoldable pub fact_loop : Bool → ℕ → ℕ → List (StableFact F) → Section F → Section F
  unfolding approx_token_count format_stable_fact stable_fact_citation
  fact_loop render_arc cap header_tokens [] s = s
  fact_loop render_arc cap header_tokens (f ∷ facts) s =
      let line = format_stable_fact f render_arc in
      let overhead = if is_empty s.local then header_tokens else 0 in
      elim (ltb cap (s.used + overhead + line_cost line)) [
        | true ↦ s
        | false ↦ fact_loop render_arc cap header_tokens facts (add_fact overhead f line s)
      ]

  abbrev pub facts_header : Text
  facts_header = codes "## Known facts about this user" ++ newline

  abbrev pub memories_header : Text
  memories_header = codes "## Relevant memories" ++ newline

  abbrev pub turns_header : Text
  turns_header = codes "## From recent conversations" ++ newline

  unfoldable pub tier1_section :
      TierBudget → GateState → Bool → List (StableFact F) → Draft F → Draft F
  unfolding fact_loop close_section join
  tier1_section budget gate render_arc stable_facts d =
      if gate.tier1_open && not (is_empty stable_facts)
      then close_section facts_header d (
          fact_loop render_arc (min (d.used + tier1 budget) budget.max_tokens)
            (line_cost facts_header) stable_facts (open_section d))
      else d

  -- Candidates whose text is not the value of a stable fact, if those were shown.
  unfoldable pub kept_memories :
      GateState → List (StableFact F) → List (Candidate F) → List (Candidate F)
  unfolding strip list_eq nat_eq
  kept_memories gate stable_facts cands =
      let values =
        if gate.tier1_open then map (λ f. strip (or_empty f.value)) stable_facts else [] in
      filter (λ c. not (contains values (strip c.content))) cands

  unfoldable pub tier2_section :
      TierBudget → GateState → Bool → List (StableFact F) → List (Candidate F) → Draft F → Draft F
  unfolding fit_lines kept_memories format_memory_candidate
  tier2_section budget gate render_arc stable_facts cands d =
      let kept = kept_memories gate stable_facts cands in
      if gate.tier2_open && not (is_empty kept)
      then fit_lines budget memories_header
          (map
            (λ c. record {
              line = format_memory_candidate c render_arc;
              cand = c;
              snippet = strip c.content;
            })
            kept)
          (tier2 budget) d
      else d

  unfoldable pub tier3_section : TierBudget → GateState → List (Candidate F) → Draft F → Draft F
  unfolding fit_lines format_turn_candidate
  tier3_section budget gate cands d =
      if gate.tier2_open && not (is_empty cands)
      then fit_lines budget turns_header
          (map
            (λ c. record {
              line = format_turn_candidate enc c;
              cand = c;
              snippet = strip c.content;
            })
            cands)
          (budget.max_tokens - d.used) d
      else d

  unfoldable pub draft :
      List (StableFact F)
      → List (Candidate F)
      → List (Candidate F)
      → GateState
      → TierBudget
      → Bool
      → Draft F
  unfolding tier1_section tier2_section tier3_section
  draft stable_facts memory_candidates turn_candidates gate budget render_arc =
      tier3_section budget gate turn_candidates (
        tier2_section budget gate render_arc stable_facts memory_candidates
          (tier1_section budget gate render_arc stable_facts blank))

  unfoldable pub assemble :
      List (StableFact F)
      → List (Candidate F)
      → List (Candidate F)
      → GateState
      → TierBudget
      → Bool
      → Text × List (Citation F)
  unfolding draft finish
  assemble stable_facts memory_candidates turn_candidates gate budget render_arc =
      finish gate (draft stable_facts memory_candidates turn_candidates gate budget render_arc)
