-- ===== src/Gate/Rules.antt =====
-- When the gate opens.
use higgsfield_memory_servic.Prelude.{Bool, ◌&&◌, ◌||◌, not, ◌≡◌, arith, if◌then◌else◌}
use higgsfield_memory_servic.Gate.{Signals, decide_gate}

abbrev pub has_hit : Signals → Bool
has_hit s = s.has_entity_match || s.has_memory_signal

-- Tier 1 opens exactly when the query is about the user and an entity or a memory was hit, or when
-- neither was hit and the query is open-ended. Tier 2 opens exactly when an entity or a memory was
-- hit, or when a turn was hit and the query is not open-ended.
pub decide_gate_iff :
    (s : Signals)
    → ((decide_gate s).tier1_open
        ≡ (if has_hit s then s.profile_relevant else s.is_open_ended_about_user))
      × ((decide_gate s).tier2_open
          ≡ (has_hit s || (not s.is_open_ended_about_user && s.has_turn_signal)))
unfolding decide_gate
decide_gate_iff s = ground arith
