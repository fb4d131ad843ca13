-- ===== src/Candidate.antt =====
-- `Candidate` of src/memory_service/services/retrievers.py, with the metadata it carries.
use higgsfield_memory_servic.Prelude.{ℕ, String, Option, List}
use higgsfield_memory_servic.Text.{Text}
use higgsfield_memory_servic.Datetime.{Datetime}

-- The `prior` entry: the memory that this one supersedes. Its `type`, which nothing reads, is left
-- out.
pub record Prior : Type 0 where
  pub id : ℕ
  pub value : Option Text
  pub object : Option Text
  pub updated_at : Option Datetime

-- The values under the metadata's keys. A turn's metadata is what the client sent, kept as JSON.
pub data Value (F : Type 0) : Type 0 where
  str : Text → Value F
  float : F → Value F
  tags : List String → Value F
  arc : Prior → Value F
  json : Text → Value F

abbrev pub Metadata : Type 0 → Type 0
Metadata F = List (String × Value F)

pub record Candidate (F : Type 0) : Type 0 where
  pub source : String
  pub kind : String
  pub id : ℕ
  pub score : F
  pub content : Text
  pub session_id : Option Text
  pub timestamp : Option Datetime
  pub source_turn : Option ℕ
  pub metadata : Metadata F
