-- ===== src/Reconciler.antt =====
-- src/memory_service/services/reconciler.py: what a new candidate does to the rows of its key.
pub mod Decisions
use mathlib.Core.Option.{get_or}
use higgsfield_memory_servic.Prelude.{
  ℕ, Bool, true, false, not, ◌&&◌, ◌||◌, Option, none, some, List, [], ◌∷◌, ◌++◌, map, ◌==◌, nat_eq,
  list_eq, if◌then◌else◌, filter, any,
}
use higgsfield_memory_servic.Text.{Text, codes, strip, lower, is_empty, occurs_in}
use higgsfield_memory_servic.Regex.{Re, bound, seq, phrase, any_of, found}
use higgsfield_memory_servic.Models.{MemoryCandidate, key, Multiplicity, one, many}
use higgsfield_memory_servic.Taxonomy.{spec_for}
use higgsfield_memory_servic.Store.{Scope, Memory, Db}
use higgsfield_memory_servic.MemoryRepo.{Scan, rows_about, deactivate}

unfoldable pub correction_markers : Re
correction_markers = seq bound (
    seq
      (any_of (phrase ("actually" ∷ [])) (
        phrase ("sorry" ∷ [])
        ∷ phrase ("correction" ∷ [])
        ∷ phrase ("i" ∷ "meant" ∷ [])
        ∷ phrase ("never" ∷ "mind" ∷ [])
        ∷ phrase ("scratch" ∷ "that" ∷ [])
        ∷ phrase ("that" ∷ "was" ∷ "wrong" ∷ [])
        ∷ phrase ("let" ∷ "me" ∷ "correct" ∷ [])
        ∷ []))
      bound)

unfoldable pub is_correction : Text → Bool
unfolding found correction_markers
is_correction raw_quote = found correction_markers raw_quote

pub record ReconcileDecision : Type 0 where
  pub insert : Bool
  pub active : Bool
  pub supersedes : Option ℕ
  pub deactivate_ids : List ℕ

-- The candidate's object is there already: nothing is inserted.
abbrev pub skip : ReconcileDecision
skip = record { insert = false; active = false; supersedes = none; deactivate_ids = [] }

module _ {F : Type 0} where
  abbrev pub first_id : List (Memory F) → Option ℕ
  first_id [] = none
  first_id (m ∷ _) = some m.id

  abbrev pub ids : List (Memory F) → List ℕ
  ids = map (λ m. m.id)

  -- The new row is inserted; it supersedes the first of the rows, and all of them are retired.
  abbrev pub replace : List (Memory F) → ReconcileDecision
  replace rows = record {
    insert = true;
    active = true;
    supersedes = first_id rows;
    deactivate_ids = ids rows;
  }

  unfoldable pub same_object : Text → Memory F → Bool
  unfolding strip lower list_eq nat_eq
  same_object object m = lower (strip m.object) == lower (strip object)

  -- The active rows whose object the quote mentions.
  unfoldable pub is_target : Text → Memory F → Bool
  unfolding strip lower occurs_in
  is_target raw_quote m =
      let obj = strip m.object in not (is_empty obj) && occurs_in (lower obj) (lower raw_quote)

  abbrev pub latest : List (Memory F) → List (Memory F)
  latest [] = []
  latest (m ∷ _) = m ∷ []

  -- What a correction retires: its targets, or else the most recent active row.
  unfoldable pub corrected : Text → List (Memory F) → List (Memory F)
  unfolding is_target
  corrected raw_quote active_rows =
      let targets = filter (is_target raw_quote) active_rows in
      if is_empty targets then latest active_rows else targets

  -- The decision from the active rows of the key, newest first.
  unfoldable pub decide : Multiplicity → Text → Text → List (Memory F) → ReconcileDecision
  unfolding same_object corrected is_correction
  decide one object raw_quote active_rows =
      if any (same_object object) active_rows then skip else replace active_rows
  decide many object raw_quote active_rows =
      if any (same_object object) active_rows
      then skip
      else if is_correction raw_quote
      then replace (corrected raw_quote active_rows)
      else replace []

  abbrev pub active_about : Scan (Memory F) → Scope → Text → List (Memory F) → List (Memory F)
  active_about sc scope k ms = filter (λ m. m.active) (rows_about sc scope k ms)

  unfoldable pub reconcile : Scan (Memory F) → Scope → MemoryCandidate F → Db F → ReconcileDecision
  unfolding decide spec_for rows_about key
  reconcile sc scope candidate db =
      decide (spec_for candidate.predicate).multiplicity candidate.object candidate.raw_quote
        (active_about sc scope (key candidate) db.memories)

  unfoldable pub apply_decision : ReconcileDecision → Db F → Db F
  unfolding deactivate
  apply_decision decision db =
      if is_empty decision.deactivate_ids then db else deactivate decision.deactivate_ids db
