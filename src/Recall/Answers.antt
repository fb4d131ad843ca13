-- ===== src/Recall/Answers.antt =====
-- What a recall answers.
use higgsfield_memory_servic.Prelude.{◌≤◌, ◌<◌, ◌≡◌, ap, none, some, List}
use higgsfield_memory_servic.Text.{Text}
use higgsfield_memory_servic.Numbers.{Floats, IsOrdered}
use higgsfield_memory_servic.Tokens.{approx_token_count}
use higgsfield_memory_servic.TurnRepo.{scope_for}
use higgsfield_memory_servic.Store.{Scope}
use higgsfield_memory_servic.Candidate.{Candidate}
use higgsfield_memory_servic.Format.{Citation}
use higgsfield_memory_servic.Fusion.{group_by_source}
use higgsfield_memory_servic.Fusion.Ranking.{rrf_fuse_lem}
use higgsfield_memory_servic.Assembler.{tier_budget}
use higgsfield_memory_servic.Assembler.Context.{count-assemble-le}
use higgsfield_memory_servic.Recall.{
  Analysis, RecallIn, Reads, Settings, candidates, memory_cands, turn_cands, recall_gate,
  render_arc, answer, answered, recall,
}

module _ {F : Type 0} (fl : Floats F) (order : IsOrdered fl) (reads : Reads F)
    (settings : Settings F) (payload : RecallIn) (analysis : Analysis) where
  answer-le :
      (scope : Scope) (fused : List (Candidate F × F))
      → 0 < payload.max_tokens
      → approx_token_count none (answer fl reads none settings scope payload analysis fused).0
        ≤ payload.max_tokens
  unfolding answer
  answer-le scope fused pos =
      count-assemble-le fl (reads.stable_facts scope) (memory_cands fl reads fused)
        (turn_cands fl reads fused) (recall_gate fl reads settings scope analysis fused)
        (tier_budget payload.max_tokens) (render_arc fl reads analysis) pos

  -- Without a tokenizer and for numbers that are ordered, with no NaN among them: whatever the reads
  -- return and whichever retrievers fail, a recall with a positive limit returns, and its context
  -- counts at most `max_tokens` tokens.
  pub count-recall-le :
      0 < payload.max_tokens
      → (out : Text × List (Citation F)) × (recall fl reads none settings payload analysis
          ≡ some out)
        × (approx_token_count none out.0 ≤ payload.max_tokens)
  unfolding recall
  count-recall-le pos =
      let scope = scope_for payload.user_id payload.session_id in
      let (fused, done, _, _, _) =
        rrf_fuse_lem fl order (group_by_source (candidates fl reads scope payload analysis))
          settings.rrf_k in
      (
        answer fl reads none settings scope payload analysis fused,
        ap (answered fl reads none settings scope payload analysis) done,
        answer-le scope fused pos,
      )
