-- ===== src/Tests.antt =====
-- Data that the statements at concrete inputs share.
pub mod Context
pub mod Words
pub mod Answers
pub mod Tables
pub mod Requests
pub mod Reads
pub mod Extraction
pub mod Endpoints
use mathlib.Core.Option.{get_or}
use higgsfield_memory_servic.Prelude.{
  Option, ltb, ◌-◌, ℕ, ◌+◌, ◌≤◌, ◌<◌, String, Bool, true, false, not, ◌&&◌, ◌||◌, ◌≡◌, refl, none,
  some, List, [], ◌∷◌, ◌++◌, map, arith, ◌==◌, nat_eq, string_eq, pair_eq, list_eq, option_eq,
  if◌then◌else◌, All, any, count, filter, length, take, length-append, length-take-le,
}
use higgsfield_memory_servic.Text.{Text, codes, is_empty, join}
use higgsfield_memory_servic.Numbers.{millionths, millionths-IsOrdered}
use higgsfield_memory_servic.Datetime.{Datetime}
use higgsfield_memory_servic.Candidate.{Candidate}
use higgsfield_memory_servic.Dict.{Dict, lookup, NodupKeys}
use higgsfield_memory_servic.Sorting.{IsSorted}
use higgsfield_memory_servic.Models.{fact, MemoryCandidate, key, one}
use higgsfield_memory_servic.Tokens.{Encoding, approx_token_count, trim_to_tokens}
use higgsfield_memory_servic.Tokens.Laws.{count-trim_to_tokens}
use higgsfield_memory_servic.Fusion.{Key, key_of, higher, rrf_fuse, group_by_source}
use higgsfield_memory_servic.Fusion.Events.{events, is_hit}
use higgsfield_memory_servic.Fusion.Ranking.{IsEntry, rrf_fuse_lem}
use higgsfield_memory_servic.Fusion.Groups.{group_by_source_lem}
use higgsfield_memory_servic.Gate.{Signals, decide_gate}
use higgsfield_memory_servic.Gate.Rules.{has_hit, decide_gate_iff}
use higgsfield_memory_servic.Format.{StableFact}
use higgsfield_memory_servic.Assembler.{
  tier_budget, Item, blank, fit_lines, cite, newline, assemble,
}
use higgsfield_memory_servic.Assembler.Context.{count-assemble-le, assemble_no_signal}
use higgsfield_memory_servic.Assembler.Prefix.{fit_lines-take, second_line_dropped}
use higgsfield_memory_servic.Taxonomy.{PredicateSpec, index, spec_for, normalize_predicate}
use higgsfield_memory_servic.Taxonomy.Canonical.{
  is_canonical, normalize_predicate-canonical, normalize_predicate_known,
}
use higgsfield_memory_servic.Store.{user, session, Role, Memory, Db, no_rows, scope_eq}
use higgsfield_memory_servic.Store.Scopes.{memory_scopes}
use higgsfield_memory_servic.Store.Sound.{IsSound}
use higgsfield_memory_servic.TurnRepo.{TurnIn}
use higgsfield_memory_servic.MemoryRepo.{Scan, is_about, rows_about, recompute_active}
use higgsfield_memory_servic.MemoryRepo.Recompute.{recompute_active_one}
use higgsfield_memory_servic.Reconciler.{same_object, active_about, reconcile}
use higgsfield_memory_servic.Reconciler.Decisions.{is_current, IsReconciled, reconcile_lem}
use higgsfield_memory_servic.Ingest.{Batch, ingest_candidate, ingest_turn}
use higgsfield_memory_servic.Admin.{delete_session, delete_user}
use higgsfield_memory_servic.Admin.Isolation.{delete_session-IsSound, delete_user-IsSound}
use higgsfield_memory_servic.Admin.Erasure.{IsErased, delete_session-IsErased, delete_user-IsErased}
use higgsfield_memory_servic.QueryText.{stop, query_tokens}
use higgsfield_memory_servic.QueryText.Words.{IsWords, query_tokens-IsWords}
use higgsfield_memory_servic.Search.{SearchIn, search_scope, search}
use higgsfield_memory_servic.Search.Results.{Answer, search-Answer}
use higgsfield_memory_servic.Http.{
  Request, Reply, forward, invalid_content_length, payload_too_large, has_body, dispatch,
}
use higgsfield_memory_servic.Http.Guards.{full_body, is_malformed, declared, by_size, dispatch_lem}
use higgsfield_memory_servic.Ingest.Current.{ingest_candidate_one}
use higgsfield_memory_servic.Ingest.Transaction.{ingest_turn-IsSound}

abbrev pub hit : String → String → ℕ → ℕ → String → Candidate ℕ
hit source kind id score content = record {
  source = source;
  kind = kind;
  id = id;
  score = score;
  content = codes content;
  session_id = none;
  timestamp = none;
  source_turn = none;
  metadata = [];
}

abbrev pub hits : List (Candidate ℕ)
hits =
    hit "memory_vector" "memory" 1 900000 "Lives in Berlin"
    ∷ hit "turn_vector" "turn" 7 500000 "I moved to Berlin"
    ∷ hit "memory_vector" "memory" 2 400000 "Has a dog"
    ∷ hit "graph" "memory" 1 700000 "Lives in Berlin"
    ∷ []

abbrev pub groups : Dict String (List (Candidate ℕ))
groups = group_by_source hits

abbrev pub noon : Datetime
noon = record { year = 2025; month = 3; day = 15; micros = 43200000000 }
