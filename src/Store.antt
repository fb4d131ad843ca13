-- ===== src/Store.antt =====
-- The tables of src/memory_service/db/migrations/001_init.sql. An identifier is a number, drawn in
-- order from `supply`, so a fresh UUID is one that no row has. The `key` column is computed by
-- `row_key`; `tsv` is computed by Postgres, from the columns that it is made of. `ingested_at`, which
-- no code reads, is left out.
pub mod Scopes
pub mod Sound
use higgsfield_memory_servic.Prelude.{
  ℕ, String, Bool, true, false, ◌≡◌, refl, ap, Option, none, some, List, [], arith, Eq, ◌==◌,
  nat_eq, list_eq, dec_by_test,
}
use higgsfield_memory_servic.Text.{Text}
use higgsfield_memory_servic.Datetime.{Datetime}
use higgsfield_memory_servic.Candidate.{Metadata}
use higgsfield_memory_servic.Models.{MemoryType, key_text}

-- (scope_type, scope_id); the CHECK constraint leaves these two types.
pub data Scope : Type 0 where
  user : Text → Scope
  session : Text → Scope

abbrev scope_test : Scope → Scope → Bool
scope_test (user a) (user b) = a == b
scope_test (session a) (session b) = a == b
scope_test _ _ = false

pub scope_sound : (a b : Scope) → scope_test a b ≡ true → a ≡ b
scope_sound (user a) (user b) h = ground arith
scope_sound (user a) (session b) h = cc
scope_sound (session a) (user b) h = cc
scope_sound (session a) (session b) h = ground arith

scope_refl : (a : Scope) → scope_test a a ≡ true
scope_refl (user a) = ground arith
scope_refl (session a) = ground arith

pub scope_complete : (a b : Scope) → a ≡ b → scope_test a b ≡ true
scope_complete a b h = rw (← h) (scope_refl a)

instance unfoldable pub scope_eq : Eq Scope
unfolding dec_by_test list_eq nat_eq
scope_eq = record { dec = dec_by_test scope_test scope_sound scope_complete }

pub data Role : Type 0 where
  user assistant tool system : Role

pub record Message : Type 0 where
  pub role : Role
  pub content : Text
  pub name : Option Text

pub record Turn (F : Type 0) : Type 0 where
  pub id : ℕ
  pub session_id : Text
  pub user_id : Option Text
  pub scope : Scope
  pub messages : List Message
  pub full_text : Text
  pub timestamp : Datetime
  pub metadata : Metadata F
  pub embedding : Option (List F)

pub record Memory (F : Type 0) : Type 0 where
  pub id : ℕ
  pub scope : Scope
  pub type : MemoryType
  pub subject : Text
  pub predicate : Text
  pub object : Text
  pub value : Text
  pub raw_quote : Option Text
  pub confidence : F
  pub source_session : Option Text
  pub source_turn : Option ℕ
  pub created_at : Datetime
  pub updated_at : Datetime
  pub supersedes : Option ℕ
  pub active : Bool
  pub embedding : Option (List F)

abbrev pub row_key : {F : Type 0} → Memory F → Text
row_key m = key_text m.subject m.predicate

pub record Entity : Type 0 where
  pub id : ℕ
  pub scope : Scope
  pub name : Text
  pub type : Option Text

pub record Mention : Type 0 where
  pub memory_id : ℕ
  pub entity_id : ℕ

pub record Edge (F : Type 0) : Type 0 where
  pub src : ℕ
  pub dst : ℕ
  pub relation : String
  pub weight : F

pub record Db (F : Type 0) : Type 0 where
  pub turns : List (Turn F)
  pub memories : List (Memory F)
  pub entities : List Entity
  pub mentions : List Mention
  pub edges : List (Edge F)
  pub supply : ℕ

abbrev pub no_rows : {F : Type 0} → Db F
no_rows = record { turns = []; memories = []; entities = []; mentions = []; edges = []; supply = 0 }
