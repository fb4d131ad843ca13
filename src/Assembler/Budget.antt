-- ===== src/Assembler/Budget.antt =====
-- The context stays within the caller's token budget.
use higgsfield_memory_servic.Prelude.{
  ℕ, ◌+◌, ◌*◌, ◌≤◌, min, Bool, true, false, ◌≡◌, refl, Option, List, [], ◌∷◌, ◌++◌, arith,
  if◌then◌else◌, ltb, leb, ◌&&◌,
}
use higgsfield_memory_servic.Text.{Text, is_empty, join}
use higgsfield_memory_servic.Numbers.{Floats}
use higgsfield_memory_servic.Candidate.{Candidate}
use higgsfield_memory_servic.Tokens.{Encoding}
use higgsfield_memory_servic.Gate.{GateState}
use higgsfield_memory_servic.Format.{StableFact, format_stable_fact}
use higgsfield_memory_servic.Assembler.{
  TierBudget, Draft, Section, Item, newline, open_section, close_section, line_cost, fit_loop,
  fit_lines, fact_loop, tier1_section, tier2_section, tier3_section, blank, finish, draft, add_fact,
  add_item, assemble, tier1, tier2,
}
use higgsfield_memory_servic.Assembler.Cost.{
  Weighing, lines_weight, sections_weight, header_weight, lines_weight-append,
  sections_weight-append, join-sections-le, section-le,
}

not_empty : {n : ℕ} (ls : List Text) (l : Text) → is_empty (ls ++ l ∷ []) ≡ true → n ≡ 0
not_empty [] l h = cc
not_empty (_ ∷ _) l h = cc

module _ {F : Type 0} (fl : Floats F) {enc : Option Encoding} (w : Weighing enc) (limit : ℕ) where
  -- The tokens used are within the limit and pay for the sections.
  record IsPaid (d : Draft F) : Type 0 where
    within : d.used ≤ limit
    paid : sections_weight w d.sections ≤ w.unit * d.used

  -- The same inside a tier's loop, where the lines so far are still loose.
  record IsPaying (header : Text) (d : Draft F) (s : Section F) : Type 0 where
    within : s.used ≤ limit
    paid :
        sections_weight w d.sections + header_weight w header s.local + lines_weight w s.local
        ≤ w.unit * s.used

  open_section-IsPaying :
      (header : Text) (d : Draft F) → IsPaid d → IsPaying header d (open_section d)
  open_section-IsPaying header d h = record { within = h.within; paid = omega (arith, h.paid) }

  closed_paid :
      (header : Text) (sections ls : List Text) (u : ℕ)
      → sections_weight w sections + header_weight w header ls + lines_weight w ls ≤ u
      → sections_weight w
          (if is_empty ls then sections else sections ++ (header ++ join newline ls) ∷ [])
        ≤ u
  closed_paid header sections [] u h = omega (arith, h)
  closed_paid header sections (l ∷ ls) u h = omega (
    arith,
    section-le w header l ls,
    sections_weight-append w sections (header ++ join newline (l ∷ ls)),
  )

  close_section-IsPaid :
      (header : Text) (d : Draft F) (s : Section F)
      → IsPaying header d s
      → IsPaid (close_section header d s)
  unfolding close_section
  close_section-IsPaid header d s h = record {
    within = h.within;
    paid = closed_paid header d.sections s.local _ h.paid;
  }

  -- One more line.
  line_paid :
      (header line : Text) (ls : List Text) (base used : ℕ)
      → base + header_weight w header ls + lines_weight w ls ≤ w.unit * used
      → base + header_weight w header (ls ++ line ∷ []) + lines_weight w (ls ++ line ∷ [])
        ≤ w.unit
          * (used + (line_cost fl enc line + (if is_empty ls then line_cost fl enc header else 0)))
  line_paid header line [] base used h =
      omega (arith, w.weight-le-count header, w.weight-le-count line)
  line_paid header line (l ∷ ls) base used h =
      omega (arith, w.weight-le-count line, lines_weight-append w (l ∷ ls) line)

  module _ (header : Text) (d : Draft F) where
    fact_loop-IsPaying :
        (render_arc : Bool) (ceiling : ℕ) (facts : List (StableFact F)) (s : Section F)
        → ceiling ≤ limit
        → IsPaying header d s
        → IsPaying header d (fact_loop fl enc render_arc ceiling (line_cost fl enc header) facts s)
    unfolding fact_loop
    fact_loop-IsPaying render_arc ceiling [] s fits h = h
    fact_loop-IsPaying render_arc ceiling (f ∷ facts) s fits h =
        let line = format_stable_fact f render_arc in
        let overhead = if is_empty s.local then line_cost fl enc header else 0 in
        let next = add_fact fl enc overhead f line s in
        let rest = fact_loop fl enc render_arc ceiling (line_cost fl enc header) facts next in
        let full = ltb ceiling (s.used + overhead + line_cost fl enc line) in
        let go : full ≡ false → IsPaying header d rest = λ room.
          fact_loop-IsPaying render_arc ceiling facts next fits (record {
            within = ground arith;
            paid = line_paid header line s.local (sections_weight w d.sections) s.used h.paid;
          }) in
        (elim full as (λ b. full ≡ b → IsPaying header d (elim b [ true ↦ s | false ↦ rest ])) [
          | true ↦ λ _. h
          | false ↦ go
        ])
          refl

    fit_loop-IsPaying :
        (ceiling i : ℕ) (items : List (Item F)) (s : Section F)
        → ceiling ≤ limit
        → (is_empty s.local ≡ true → i ≡ 0)
        → IsPaying header d s
        → IsPaying header d (fit_loop fl enc ceiling (line_cost fl enc header) i items s)
    unfolding fit_loop
    fit_loop-IsPaying ceiling i [] s fits first h = h
    fit_loop-IsPaying ceiling i (it ∷ items) s fits first h =
        let overhead = if leb i 0 && is_empty s.local then line_cost fl enc header else 0 in
        let next = add_item fl enc overhead it s in
        let rest = fit_loop fl enc ceiling (line_cost fl enc header) (i + 1) items next in
        let full = ltb ceiling (s.used + overhead + s.per_item_used + line_cost fl enc it.line) in
        let once : overhead ≡ (if is_empty s.local then line_cost fl enc header else 0) =
          ground (arith, first) in
        let go : full ≡ false → IsPaying header d rest = λ room.
          fit_loop-IsPaying ceiling (i + 1) items next fits
            (λ none_yet. not_empty s.local it.line none_yet)
            (record {
              within = ground arith;
              paid =
                  rw once
                    (line_paid header it.line s.local (sections_weight w d.sections) s.used h.paid);
            }) in
        (elim full as (λ b. full ≡ b → IsPaying header d (elim b [ true ↦ s | false ↦ rest ])) [
          | true ↦ λ _. h
          | false ↦ go
        ])
          refl

  -- A tier that a test guards: skipped, the draft stays.
  IsPaid-if : (b : Bool) (d e : Draft F) → IsPaid d → IsPaid e → IsPaid (if b then e else d)
  IsPaid-if true d e hd he = he
  IsPaid-if false d e hd he = hd

  module _ (budget : TierBudget) (fits : budget.max_tokens ≤ limit) (gate : GateState) where
    fit_lines-IsPaid :
        (header : Text) (items : List (Item F)) (soft : ℕ) (d : Draft F)
        → IsPaid d
        → IsPaid (fit_lines fl enc budget header items soft d)
    unfolding fit_lines
    fit_lines-IsPaid header items soft d h = close_section-IsPaid header d _ (
        fit_loop-IsPaying header d (min (d.used + soft) budget.max_tokens) 0 items (open_section d)
          (omega arith) (λ _. refl) (open_section-IsPaying header d h))

    tier1_section-IsPaid :
        (render_arc : Bool) (facts : List (StableFact F)) (d : Draft F)
        → IsPaid d
        → IsPaid (tier1_section fl enc budget gate render_arc facts d)
    unfolding tier1_section
    tier1_section-IsPaid render_arc facts d h = IsPaid-if _ d _ h (
        close_section-IsPaid _ d _ (
          fact_loop-IsPaying _ d render_arc (min (d.used + tier1 budget) budget.max_tokens) facts
            (open_section d) (omega arith) (open_section-IsPaying _ d h)))

    tier2_section-IsPaid :
        (render_arc : Bool) (facts : List (StableFact F)) (cands : List (Candidate F)) (d : Draft F)
        → IsPaid d
        → IsPaid (tier2_section fl enc budget gate render_arc facts cands d)
    unfolding tier2_section
    tier2_section-IsPaid render_arc facts cands d h =
        IsPaid-if _ d _ h (fit_lines-IsPaid _ _ (tier2 budget) d h)

    tier3_section-IsPaid :
        (cands : List (Candidate F)) (d : Draft F)
        → IsPaid d
        → IsPaid (tier3_section fl enc budget gate cands d)
    unfolding tier3_section
    tier3_section-IsPaid cands d h = IsPaid-if _ d _ h (fit_lines-IsPaid _ _ _ d h)

    blank-IsPaid : IsPaid blank
    blank-IsPaid = record { within = omega arith; paid = omega arith }

  IsPaid-context :
      (sections : List Text) (used : ℕ)
      → used ≤ limit
      → sections_weight w sections ≤ w.unit * used
      → is_empty sections ≡ false
      → w.weight (join (newline ++ newline) sections) + 2 ≤ w.unit * limit
  IsPaid-context [] used h p e = cc
  IsPaid-context (s ∷ ss) used h p e = grind (arith, join-sections-le w s ss)

  finish_weight :
      (gate : GateState) (d : Draft F)
      → IsPaid d
      → is_empty (finish gate d).0 ≡ false
      → w.weight (finish gate d).0 + 2 ≤ w.unit * limit
  unfolding finish
  finish_weight gate d h = ground (arith, IsPaid-context d.sections d.used h.within h.paid)

module _ {F : Type 0} (fl : Floats F) {enc : Option Encoding} (w : Weighing enc)
    (facts : List (StableFact F)) (memories turns : List (Candidate F)) (gate : GateState)
    (budget : TierBudget) (render_arc : Bool) where
  draft-IsPaid :
      IsPaid fl w budget.max_tokens (draft fl enc facts memories turns gate budget render_arc)
  unfolding draft
  draft-IsPaid = tier3_section-IsPaid fl w _ budget (omega arith) gate turns _ (
      tier2_section-IsPaid fl w _ budget (omega arith) gate render_arc facts memories _ (
        tier1_section-IsPaid fl w _ budget (omega arith) gate render_arc facts blank
          (blank-IsPaid fl w _ budget (omega arith) gate)))

  -- A context that is not empty weighs, with two to spare, at most what the budget pays for.
  pub assemble-weight :
      is_empty (assemble fl enc facts memories turns gate budget render_arc).0 ≡ false
      → w.weight (assemble fl enc facts memories turns gate budget render_arc).0 + 2
        ≤ w.unit * budget.max_tokens
  unfolding assemble
  assemble-weight =
      finish_weight fl w budget.max_tokens gate
        (draft fl enc facts memories turns gate budget render_arc) draft-IsPaid
