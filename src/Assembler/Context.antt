-- ===== src/Assembler/Context.antt =====
-- What a caller of `assemble` may rely on.
use higgsfield_memory_servic.Prelude.{
  ◌≤◌, ◌<◌, Bool, false, ◌||◌, ◌≡◌, Option, none, List, [], arith,
}
use higgsfield_memory_servic.Numbers.{Floats}
use higgsfield_memory_servic.Candidate.{Candidate}
use higgsfield_memory_servic.Tokens.{Encoding, approx_token_count}
use higgsfield_memory_servic.Gate.{GateState, Signals, decide_gate}
use higgsfield_memory_servic.Gate.Rules.{has_hit, decide_gate_iff}
use higgsfield_memory_servic.Format.{StableFact}
use higgsfield_memory_servic.Assembler.{TierBudget, Draft, draft, finish, assemble}
use higgsfield_memory_servic.Assembler.Cost.{by_characters}
use higgsfield_memory_servic.Assembler.Budget.{assemble-weight}

finish_closed :
    {F : Type 0} (gate : GateState) (d : Draft F)
    → gate.tier1_open ≡ false
    → gate.tier2_open ≡ false
    → finish gate d ≡ ([], [])
unfolding finish
finish_closed gate d c1 c2 = ground arith

module _ {F : Type 0} (fl : Floats F) (facts : List (StableFact F))
    (memories turns : List (Candidate F)) (gate : GateState) (budget : TierBudget)
    (render_arc : Bool) where
  -- Without a tokenizer, the context counts at most `max_tokens` tokens, for a positive budget.
  pub count-assemble-le :
      0 < budget.max_tokens
      → approx_token_count none (assemble fl none facts memories turns gate budget render_arc).0
        ≤ budget.max_tokens
  unfolding approx_token_count
  count-assemble-le pos =
      grind (arith, assemble-weight fl by_characters facts memories turns gate budget render_arc)

module _ {F : Type 0} (fl : Floats F) (enc : Option Encoding) (facts : List (StableFact F))
    (memories turns : List (Candidate F)) (budget : TierBudget) (render_arc : Bool) where
  -- Whatever was retrieved, and whether or not the query is about the user: if no entity matched, no
  -- memory and no turn passed its signal test and the query is not open-ended, then the gate that
  -- is decided from these signals lets nothing through, neither context nor citation.
  pub assemble_no_signal :
      (s : Signals)
      → (has_hit s || s.is_open_ended_about_user || s.has_turn_signal) ≡ false
      → assemble fl enc facts memories turns (decide_gate s) budget render_arc ≡ ([], [])
  unfolding assemble
  assemble_no_signal s quiet =
      let (first, second) = decide_gate_iff s in
      finish_closed (decide_gate s)
        (draft fl enc facts memories turns (decide_gate s) budget render_arc)
        (ground (arith, quiet, first)) (ground (arith, quiet, second))
