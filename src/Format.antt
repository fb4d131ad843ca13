-- ===== src/Format.antt =====
-- The lines and citations of src/memory_service/services/assembler.py.
use higgsfield_memory_servic.Prelude.{
  ℕ, Bool, Option, none, some, [], ◌++◌, nat_eq, string_eq, list_eq, if◌then◌else◌, drop,
}
use higgsfield_memory_servic.Text.{Text, codes, is_empty, strip, starts_with, replace_char}
use higgsfield_memory_servic.Tokens.{Encoding, trim_to_tokens}
use higgsfield_memory_servic.Datetime.{Datetime, iso_date}
use higgsfield_memory_servic.Candidate.{Prior, Value, Metadata, Candidate}
use higgsfield_memory_servic.Dict.{lookup}
use higgsfield_memory_servic.Models.{MemoryType}

-- A row of `list_stable_facts`.
pub record StableFact (F : Type 0) : Type 0 where
  pub id : ℕ
  pub type : MemoryType
  pub subject : Text
  pub predicate : Text
  pub object : Text
  pub value : Option Text
  pub confidence : F
  pub source_turn : Option ℕ
  pub updated_at : Option Datetime
  pub prior : Option Prior

pub record Citation (F : Type 0) : Type 0 where
  pub turn_id : ℕ
  pub score : F
  pub snippet : Text

-- `x or ""`
abbrev pub or_empty : Option Text → Text
or_empty none = []
or_empty (some t) = t

-- `f", until {d.date().isoformat()}"`, or nothing without a date.
abbrev until_date : Option Datetime → Text
until_date none = []
until_date (some d) = codes ", until " ++ iso_date d

abbrev with_arc : Text → Text → Option Datetime → Text
with_arc val prior_val until =
    codes "- "
    ++ (val ++ (codes " (previously: " ++ (prior_val ++ (until_date until ++ codes ")"))))

abbrev updated_suffix : Option Datetime → Text
updated_suffix none = []
updated_suffix (some d) = codes " (updated " ++ (iso_date d ++ codes ")")

abbrev dated : Option Datetime → Text → Text
dated none snippet = codes "- " ++ snippet
dated (some d) snippet = codes "- [" ++ (iso_date d ++ (codes "] " ++ snippet))

-- A line with the arc, if there is a prior with a value; else the line `plain`.
unfoldable pub arc_or : Option Prior → Text → Text → Text
unfolding strip iso_date
arc_or none val plain = plain
arc_or (some prior) val plain =
    let prior_val = strip (or_empty prior.value) in
    if is_empty prior_val then plain else with_arc val prior_val prior.updated_at

module _ {F : Type 0} where
  unfoldable pub format_stable_fact : StableFact F → Bool → Text
  unfolding arc_or
  format_stable_fact row render_arc =
      let val = strip (or_empty row.value) in
      arc_or (if render_arc then row.prior else none) val
        (codes "- " ++ (val ++ updated_suffix row.updated_at))

  unfoldable pub stable_fact_citation : StableFact F → Text → Option (Citation F)
  unfolding starts_with
  stable_fact_citation row line = elim row.source_turn [
    | none ↦ none
    | some src ↦ some (record {
      turn_id = src;
      score = row.confidence;
      snippet = if starts_with line (codes "- ") then drop 2 line else line;
    })
  ]

  -- `(c.metadata or {}).get("prior")`
  abbrev as_prior : Option (Value F) → Option Prior
  as_prior (some (Value.arc p)) = some p
  as_prior _ = none

  unfoldable pub prior_of : Metadata F → Option Prior
  unfolding lookup string_eq
  prior_of metadata = as_prior (lookup "prior" metadata)

  unfoldable pub format_memory_candidate : Candidate F → Bool → Text
  unfolding arc_or prior_of
  format_memory_candidate c render_arc =
      let val = strip c.content in
      arc_or (if render_arc then prior_of c.metadata else none) val (codes "- " ++ val)

  unfoldable pub format_turn_candidate : Option Encoding → Candidate F → Text
  unfolding strip replace_char trim_to_tokens iso_date nat_eq
  format_turn_candidate enc c =
      dated c.timestamp (trim_to_tokens enc (replace_char 10 32 (strip c.content)) 160)
