-- ===== src/Models.antt =====
-- src/memory_service/extraction/models.py, and the closed vocabularies of taxonomy.py.
use higgsfield_memory_servic.Prelude.{◌++◌, Option, List}
use higgsfield_memory_servic.Text.{Text, codes}

pub data MemoryType : Type 0 where
  fact preference opinion event : MemoryType

pub data Multiplicity : Type 0 where
  one many : Multiplicity

pub record EntityMention : Type 0 where
  pub name : Text
  pub type : Option Text

pub record MemoryCandidate (F : Type 0) : Type 0 where
  pub type : MemoryType
  pub subject : Text
  pub predicate : Text
  pub object : Text
  pub value : Text
  pub raw_quote : Text
  pub confidence : F
  pub entities : List EntityMention

-- `f"{self.subject}::{self.predicate}"`, the generated column `key` of the table too.
abbrev pub key_text : Text → Text → Text
key_text subject predicate = subject ++ (codes "::" ++ predicate)

unfoldable pub key : {F : Type 0} → MemoryCandidate F → Text
key c = key_text c.subject c.predicate
