-- ===== src/Assembler/Cited.antt =====
-- What holds of every turn that a fact or a candidate leads to holds of every citation.
use higgsfield_memory_servic.Prelude.{
  ℕ, ◌+◌, min, Bool, true, false, not, ◌&&◌, Option, none, some, List, [], ◌∷◌, ltb, leb,
  if◌then◌else◌, drop, All, All-append, All-map, All-filter_of_All,
}
use higgsfield_memory_servic.Text.{Text, codes, starts_with, is_empty}
use higgsfield_memory_servic.Numbers.{Floats}
use higgsfield_memory_servic.Tokens.{Encoding}
use higgsfield_memory_servic.Candidate.{Candidate}
use higgsfield_memory_servic.Format.{StableFact, Citation, format_stable_fact, stable_fact_citation}
use higgsfield_memory_servic.Gate.{GateState}
use higgsfield_memory_servic.Assembler.{
  TierBudget, Draft, Section, Item, open_section, close_section, blank, finish, line_cost, cited_id,
  add_item, fit_loop, fit_lines, add_citation, add_fact, fact_loop, tier1_section, kept_memories,
  tier2_section, tier3_section, draft, assemble,
}

module _ {F : Type 0} (fl : Floats F) (enc : Option Encoding) (Q : ℕ → Type 0) where
  abbrev Cited : List (Citation F) → Type 0
  Cited = All (λ c. Q c.turn_id)

  -- What the fact leads to, if it is cited.
  abbrev pub LeadsTo : Option ℕ → Type 0
  LeadsTo none = Unit
  LeadsTo (some k) = Q k

  add_citation-Cited :
      (f : StableFact F) (line : Text) (citations : List (Citation F))
      → LeadsTo f.source_turn
      → Cited citations
      → Cited (add_citation fl enc (stable_fact_citation f line) citations)
  unfolding stable_fact_citation
  add_citation-Cited f line citations leads h =
      elim f.source_turn
          as (λ o.
            LeadsTo o
            → Cited (
                add_citation fl enc
                  (elim o as (λ _. Option (Citation F)) [
                    | none ↦ none
                    | some src ↦ some (record {
                      turn_id = src;
                      score = f.confidence;
                      snippet = if starts_with line (codes "- ") then drop 2 line else line;
                    })
                  ])
                  citations)) [ none ↦ λ l. h | some src ↦ λ l. All-append _ citations _ h (l, tt) ]
        leads

  fact_loop-Cited :
      (render_arc : Bool) (cap header : ℕ) (facts : List (StableFact F)) (s : Section F)
      → All (λ f. LeadsTo f.source_turn) facts
      → Cited s.citations
      → Cited (fact_loop fl enc render_arc cap header facts s).citations
  unfolding fact_loop
  fact_loop-Cited render_arc cap header [] s hf h = h
  fact_loop-Cited render_arc cap header (f ∷ facts) s (hd, hf) h =
      let line = format_stable_fact f render_arc in
      let overhead = if is_empty s.local then header else 0 in
      elim (ltb cap (s.used + overhead + line_cost fl enc line))
        as (λ b.
          Cited
            (elim b as (λ _. Section F) [
              | true ↦ s
              | false ↦
                  fact_loop fl enc render_arc cap header facts (add_fact fl enc overhead f line s)
            ]).citations) [
              | true ↦ h
              | false ↦
                  fact_loop-Cited render_arc cap header facts (add_fact fl enc overhead f line s) hf
                    (add_citation-Cited f line s.citations hd h)
            ]

  fit_loop-Cited :
      (cap header i : ℕ) (items : List (Item F)) (s : Section F)
      → All (λ it. Q (cited_id fl enc it.cand)) items
      → Cited s.citations
      → Cited (fit_loop fl enc cap header i items s).citations
  unfolding fit_loop
  fit_loop-Cited cap header i [] s hi h = h
  fit_loop-Cited cap header i (it ∷ items) s (hc, hi) h =
      let overhead = if leb i 0 && is_empty s.local then header else 0 in
      elim (ltb cap (s.used + overhead + s.per_item_used + line_cost fl enc it.line))
        as (λ b.
          Cited
            (elim b as (λ _. Section F) [
              | true ↦ s
              | false ↦ fit_loop fl enc cap header (i + 1) items (add_item fl enc overhead it s)
            ]).citations) [
              | true ↦ h
              | false ↦
                  fit_loop-Cited cap header (i + 1) items (add_item fl enc overhead it s) hi
                    (All-append _ s.citations _ h (hc, tt))
            ]

  Cited-if :
      (b : Bool) (d e : Draft F)
      → Cited d.citations
      → Cited e.citations
      → Cited (if b then d else e).citations
  Cited-if true d e hd he = hd
  Cited-if false d e hd he = he

  second-if :
      (b : Bool) (x y : Text × List (Citation F))
      → Cited x.1
      → Cited y.1
      → Cited (if b then x else y).1
  second-if true x y hx hy = hx
  second-if false x y hx hy = hy

  fit_lines-Cited :
      (budget : TierBudget) (header : Text) (items : List (Item F)) (cap : ℕ) (d : Draft F)
      → All (λ it. Q (cited_id fl enc it.cand)) items
      → Cited d.citations
      → Cited (fit_lines fl enc budget header items cap d).citations
  unfolding fit_lines close_section
  fit_lines-Cited budget header items cap d hi h =
      fit_loop-Cited (min (d.used + cap) budget.max_tokens) (line_cost fl enc header) 0 items
        (open_section d) hi h

  module _ (facts : List (StableFact F)) (memories turns : List (Candidate F)) (gate : GateState)
      (budget : TierBudget) (render_arc : Bool) (hf : All (λ f. LeadsTo f.source_turn) facts)
      (hm : All (λ c. Q (cited_id fl enc c)) memories)
      (ht : All (λ c. Q (cited_id fl enc c)) turns) where
    tier1_section-Cited :
        (d : Draft F)
        → Cited d.citations
        → Cited (tier1_section fl enc budget gate render_arc facts d).citations
    unfolding tier1_section close_section
    tier1_section-Cited d h =
        Cited-if (gate.tier1_open && not (is_empty facts)) _ d
          (fact_loop-Cited render_arc _ _ facts (open_section d) hf h) h

    tier2_section-Cited :
        (d : Draft F)
        → Cited d.citations
        → Cited (tier2_section fl enc budget gate render_arc facts memories d).citations
    unfolding tier2_section kept_memories
    tier2_section-Cited d h =
        Cited-if (gate.tier2_open && not (is_empty (kept_memories fl enc gate facts memories))) _ d
          (fit_lines-Cited budget _ _ _ d
            (All-map _ _ _ (All-filter_of_All (λ c. Q (cited_id fl enc c)) _ memories hm)) h)
          h

    tier3_section-Cited :
        (d : Draft F)
        → Cited d.citations
        → Cited (tier3_section fl enc budget gate turns d).citations
    unfolding tier3_section
    tier3_section-Cited d h =
        Cited-if (gate.tier2_open && not (is_empty turns)) _ d
          (fit_lines-Cited budget _ _ _ d (All-map _ _ turns ht) h) h

    finish-Cited : (d : Draft F) → Cited d.citations → Cited (finish gate d).1
    unfolding finish
    finish-Cited d h =
        second-if (not gate.tier1_open && not gate.tier2_open) ([], []) _ tt
          (second-if (is_empty d.sections) ([], []) (_, d.citations) tt h)

    pub assemble-Cited : Cited (assemble fl enc facts memories turns gate budget render_arc).1
    unfolding assemble draft
    assemble-Cited =
        let first = tier1_section fl enc budget gate render_arc facts blank in
        let second = tier2_section fl enc budget gate render_arc facts memories first in
        finish-Cited (tier3_section fl enc budget gate turns second)
          (tier3_section-Cited second (tier2_section-Cited first (tier1_section-Cited blank tt)))
