-- ===== src/Assembler/Prefix.antt =====
-- Which lines a section shows: the first ones that fit, each with its citation.
use higgsfield_memory_servic.Prelude.{
  ℕ, suc, ◌+◌, ◌≤◌, ◌<◌, true, false, ◌≡◌, ◌∙◌, ap, sym, Option, List, [], ◌∷◌, ◌++◌, arith,
  if◌then◌else◌, ltb, leb, ◌&&◌, map, take, append-nil, append_assoc, length, min,
}
use higgsfield_memory_servic.Text.{Text, is_empty, join}
use higgsfield_memory_servic.Numbers.{Floats}
use higgsfield_memory_servic.Tokens.{Encoding}
use higgsfield_memory_servic.Assembler.{
  TierBudget, Draft, Section, newline, fit_lines, blank, Item, open_section, line_cost, fit_loop,
  add_item, cite,
}

module _ {F : Type 0} (fl : Floats F) (enc : Option Encoding) (ceiling header_tokens : ℕ) where
  -- The loop shows the first `n` lines, and cites exactly those, in order.
  record IsPrefix (items : List (Item F)) (s r : Section F) (n : ℕ) : Type 0 where
    lines : r.local ≡ s.local ++ map (λ it. it.line) (take n items)
    cites : r.citations ≡ s.citations ++ map (cite fl enc) (take n items)
    listed : n ≤ length items

  fit_loop-IsPrefix :
      (i : ℕ) (items : List (Item F)) (s : Section F)
      → (n : ℕ) × IsPrefix items s (fit_loop fl enc ceiling header_tokens i items s) n
  unfolding fit_loop
  fit_loop-IsPrefix i [] s =
      (0, record { lines = sym (append-nil _); cites = sym (append-nil _); listed = omega arith })
  fit_loop-IsPrefix i (it ∷ items) s =
      let overhead = if leb i 0 && is_empty s.local then header_tokens else 0 in
      let next = add_item fl enc overhead it s in
      let rest = fit_loop fl enc ceiling header_tokens (i + 1) items next in
      let (n, p) = fit_loop-IsPrefix (i + 1) items next in
      elim (ltb ceiling (s.used + overhead + s.per_item_used + line_cost fl enc it.line))
        as (λ b. (n : ℕ) × IsPrefix (it ∷ items) s (elim b [ true ↦ s | false ↦ rest ]) n) [
          | true ↦ (
            0,
            record { lines = sym (append-nil _); cites = sym (append-nil _); listed = omega arith },
          )
          | false ↦ (
            suc n,
            record {
              lines = p.lines ∙ append_assoc s.local (it.line ∷ []) _;
              cites = p.cites ∙ append_assoc s.citations (cite fl enc it ∷ []) _;
              listed = omega (arith, p.listed);
            },
          )
        ]

module _ {F : Type 0} (fl : Floats F) (enc : Option Encoding) (budget : TierBudget) (header : Text)
    (items : List (Item F)) (soft_cap : ℕ) (d : Draft F) where
  abbrev shown : ℕ → List Text
  shown n = map (λ it. it.line) (take n items)

  -- A section shows the first `n` lines of its items under the header, for some `n`, or is left out
  -- if that is none of them; and it cites the items that it shows, in order, and no others.
  pub fit_lines-take :
      (n : ℕ) × (n ≤ length items)
      × ((fit_lines fl enc budget header items soft_cap d).sections ≡ (
          if is_empty (shown n)
          then d.sections
          else d.sections ++ ((header ++ join newline (shown n)) ∷ [])))
      × ((fit_lines fl enc budget header items soft_cap d).citations
          ≡ d.citations ++ map (cite fl enc) (take n items))
  unfolding fit_lines
  fit_lines-take =
      let (n, p) =
        fit_loop-IsPrefix fl enc (min (d.used + soft_cap) budget.max_tokens)
          (line_cost fl enc header) 0 items (open_section d) in
      (
        n,
        p.listed,
        ap
            (λ ls.
              if is_empty ls then d.sections else d.sections ++ ((header ++ join newline ls) ∷ []))
            p.lines,
        p.cites,
      )

module _ {F : Type 0} (fl : Floats F) (enc : Option Encoding) (header : Text)
    (first second : Item F) (budget : TierBudget) (soft_cap : ℕ) where
  abbrev cost : Text → ℕ
  cost = line_cost fl enc

  -- For two lines in the first section of a draft whose share lies within the budget: the second
  -- line is left out although header and both lines fit under the ceiling, whenever they do not fit
  -- with the first line counted twice.
  pub second_line_dropped :
      soft_cap ≤ budget.max_tokens
      → cost header + cost first.line + cost second.line ≤ soft_cap
      → soft_cap < cost header + cost first.line + cost first.line + cost second.line
      → (fit_lines fl enc budget header (first ∷ second ∷ []) soft_cap blank).sections
        ≡ (header ++ first.line) ∷ []
  unfolding fit_lines
  second_line_dropped h1 h2 h3 = ground arith
