-- ===== src/Gate.antt =====
-- `GateState` and `decide_gate` of src/memory_service/services/assembler.py, and the two signal
-- tests of src/memory_service/services/recall.py that feed it.
pub mod Rules
use higgsfield_memory_servic.Prelude.{
  String, Bool, true, false, ◌&&◌, ◌||◌, List, [], ◌∷◌, ◌==◌, string_eq, if◌then◌else◌,
}
use higgsfield_memory_servic.Numbers.{Floats}
use higgsfield_memory_servic.Candidate.{Candidate}

pub record GateState : Type 0 where
  pub tier1_open : Bool
  pub tier2_open : Bool

pub record Signals : Type 0 where
  pub profile_relevant : Bool
  pub is_open_ended_about_user : Bool
  pub has_memory_signal : Bool
  pub has_turn_signal : Bool
  pub has_entity_match : Bool

abbrev gate : Bool → Bool → GateState
gate tier1 tier2 = record { tier1_open = tier1; tier2_open = tier2 }

unfoldable pub decide_gate : Signals → GateState
decide_gate s =
    if s.has_entity_match
    then gate s.profile_relevant true
    else if s.has_memory_signal && s.profile_relevant
    then gate true true
    else if s.has_memory_signal
    then gate false true
    else if s.is_open_ended_about_user
    then gate true false
    else if s.has_turn_signal
    then gate false true
    else gate false false

module _ {F : Type 0} (fl : Floats F) (cosine_min : F) where
  abbrev memory_hit : Candidate F → Bool
  memory_hit c =
      c.source == "memory_vector" && fl.le cosine_min c.score
      || c.source == "memory_fts" && fl.le (fl.decimal 1 2) c.score
      || c.source == "graph"

  unfoldable pub has_memory_signal : List (Candidate F) → Bool
  unfolding string_eq
  has_memory_signal [] = false
  has_memory_signal (c ∷ cands) = if memory_hit c then true else has_memory_signal cands

  abbrev turn_hit : Candidate F → Bool
  turn_hit c =
      c.source == "turn_vector" && fl.le cosine_min c.score
      || c.source == "turn_fts" && fl.le (fl.decimal 5 2) c.score

  unfoldable pub has_turn_signal : List (Candidate F) → Bool
  unfolding string_eq
  has_turn_signal [] = false
  has_turn_signal (c ∷ cands) = if turn_hit c then true else has_turn_signal cands
