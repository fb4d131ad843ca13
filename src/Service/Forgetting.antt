-- ===== src/Service/Forgetting.antt =====
-- What a recall still finds of a user who was deleted.
use higgsfield_memory_servic.Prelude.{
  ℕ, Bool, false, ◌≡◌, ◌≢◌, refl, sym, ap, ◌∙◌, Option, none, some, List, [], ◌∷◌, arith, ◌==◌,
  nat_eq, list_eq, option_eq, All, All-both, All-mono, All-map, inl, inr, Bool-cases,
}
use higgsfield_memory_servic.Text.{Text, is_empty}
use higgsfield_memory_servic.Numbers.{Floats, IsOrdered}
use higgsfield_memory_servic.Tokens.{Encoding}
use higgsfield_memory_servic.Candidate.{Candidate}
use higgsfield_memory_servic.Dict.{lookup}
use higgsfield_memory_servic.Format.{Citation}
use higgsfield_memory_servic.Gate.{GateState}
use higgsfield_memory_servic.Assembler.{
  TierBudget, tier_budget, assemble, draft, finish, tier1_section, tier2_section, tier3_section,
  kept_memories,
}
use higgsfield_memory_servic.Store.{Scope, user, Turn, Memory, Db, scope_eq}
use higgsfield_memory_servic.Store.Scopes.{Scopes, turn_scopes, memory_scopes}
use higgsfield_memory_servic.TurnRepo.{scope_for}
use higgsfield_memory_servic.MemoryRepo.{Scan}
use higgsfield_memory_servic.Admin.{delete_user}
use higgsfield_memory_servic.Admin.Erasure.{delete_user-IsErased}
use higgsfield_memory_servic.Retrievers.{Ranking}
use higgsfield_memory_servic.Retrievers.Scoped.{IsOwned}
use higgsfield_memory_servic.Fusion.{group_by_source, rrf_fuse}
use higgsfield_memory_servic.Recall.{
  Analysis, RecallIn, Reads, Settings, candidates, recall_gate, render_arc, answer, answered,
  recall,
}
use higgsfield_memory_servic.Recall.Database.{stored_reads}
use higgsfield_memory_servic.Recall.Scoped.{candidates-IsOwned, stored_reads-IsScoped}
use higgsfield_memory_servic.MemoryRepo.Queries.Scoped.{stable_facts-All}
use higgsfield_memory_servic.Store.Sound.{IsSound}
use higgsfield_memory_servic.Sorting.{sort}
use higgsfield_memory_servic.Service.{Reach, later, user_deleted}
use higgsfield_memory_servic.Service.Invariant.{IsFiled, IsState, Reach-IsState}

empty_of_All :
    {A : Type 0} (P : A → Type 0) → ((x : A) → ¬ P x) → (xs : List A) → All P xs → xs ≡ []
empty_of_All P never [] h = refl
empty_of_All P never (x ∷ xs) h = absurd (never x h.0)

-- An identifier leads to a scope only if some row is of it.
no_lookup :
    (scope : Scope) (d : Scopes) (k : ℕ) → All (λ x. x.1 ≢ scope) d → lookup k d ≢ some scope
unfolding lookup
no_lookup scope [] k h e = cc
no_lookup scope ((j, s) ∷ d) k (ne, h) e = elim (Bool-cases (k == j)) [
  | inl here ↦ ne (ground arith)
  | inr differs ↦ no_lookup scope d k h (ground arith)
]

-- A turn in a user's scope is one that the user sent.
pub user_of_scope :
    (user_id session_id : Text) (sender : Option Text)
    → scope_for sender session_id ≡ user user_id
    → sender ≡ some user_id
unfolding scope_for
user_of_scope user_id session_id none e = cc
user_of_scope user_id session_id (some u) e = elim (Bool-cases (is_empty u)) [
  | inl blank ↦ ground (arith, e)
  | inr named ↦ ground (arith, e)
]

module _ {F : Type 0} (fl : Floats F) (enc : Option Encoding) where
  -- Nothing found, nothing shown.
  assemble-nothing :
      (gate : GateState) (budget : TierBudget) (render_arc : Bool)
      → assemble fl enc [] [] [] gate budget render_arc ≡ ([], [])
  unfolding assemble draft finish tier1_section tier2_section tier3_section kept_memories
  assemble-nothing gate budget render_arc = ground arith

-- No turn and no memory is of the scope.
record IsVacant {F : Type 0} (db : Db F) (scope : Scope) : Type 0 where
  turns : All (λ x. x.1 ≢ scope) (turn_scopes db.turns)
  memories : All (λ x. x.1 ≢ scope) (memory_scopes db.memories)

module _ {F : Type 0} where
  IsVacant-delete_user :
      (user_id : Text) (db : Db F)
      → IsState (delete_user user_id db)
      → IsVacant (delete_user user_id db) (user user_id)
  IsVacant-delete_user user_id db h =
      let gone = delete_user-IsErased user_id db in
      let next = delete_user user_id db in
      record {
        turns = All-map _ _ next.turns (
            All-mono _ _ (λ t p e. not_sent t p.0 p.1 e) next.turns
              (All-both IsFiled _ next.turns h.filed gone.turns));
        memories =
            All-map _ _ next.memories
              (All-mono _ _ (λ m p e. not_of m p e) next.memories gone.memories);
      }
    where
      not_sent :
          (t : Turn F) → IsFiled t → t.user_id == some user_id ≡ false → t.scope ≡ user user_id → ⊥
      not_sent t filed other e =
          let sent = user_of_scope user_id t.session_id t.user_id (sym filed ∙ e) in
          ground (arith, other, sent)

      not_of : (m : Memory F) → m.scope == user user_id ≡ false → m.scope ≡ user user_id → ⊥
      not_of m other e = ground arith

module _ {F : Type 0} (fl : Floats F) (order : IsOrdered fl) (rk : Ranking F)
    (turn_scan : Scan (Turn F)) (memory_scan : Scan (Memory F)) (embed : Text → Option (List F))
    (settings : Settings F) (db : Db F) where
  abbrev stored : Reads F
  stored = stored_reads fl rk turn_scan memory_scan embed settings db

  module _ (sound : IsSound db) (scope : Scope) (vacant : IsVacant db scope) where
    no_candidates :
        (payload : RecallIn) (analysis : Analysis)
        → candidates fl stored scope payload analysis ≡ []
    no_candidates payload analysis =
        empty_of_All (IsOwned db scope)
          (λ c owned. elim owned.place [
            | inl t ↦ no_lookup scope (turn_scopes db.turns) c.id vacant.turns t.1
            | inr m ↦ no_lookup scope (memory_scopes db.memories) c.id vacant.memories m.1
          ])
          (candidates fl stored scope payload analysis)
          (candidates-IsOwned db scope fl stored
            (stored_reads-IsScoped fl order rk turn_scan memory_scan embed settings db sound scope)
            payload analysis)

    no_facts : stored.stable_facts scope ≡ []
    unfolding stored_reads
    no_facts =
        empty_of_All _ (λ f h. no_lookup scope (memory_scopes db.memories) f.id vacant.memories h.0)
          _ (stable_facts-All fl memory_scan db sound scope (fl.decimal 5 1) 16)

    answer-nothing :
        (enc : Option Encoding) (payload : RecallIn) (analysis : Analysis)
        → answer fl stored enc settings scope payload analysis [] ≡ ([], [])
    unfolding answer sort
    answer-nothing enc payload analysis =
        let gate = recall_gate fl stored settings scope analysis [] in
        let budget = tier_budget payload.max_tokens in
        let arc = render_arc fl stored analysis in
        ap (λ facts. assemble fl enc facts [] [] gate budget arc) no_facts
        ∙ assemble-nothing fl enc gate budget arc

    fuse-nothing : rrf_fuse fl (group_by_source []) settings.rrf_k ≡ some []
    unfolding rrf_fuse group_by_source
    fuse-nothing = refl

    recall-nothing :
        (enc : Option Encoding) (payload : RecallIn) (analysis : Analysis)
        → scope_for payload.user_id payload.session_id ≡ scope
        → recall fl stored enc settings payload analysis ≡ some ([], [])
    unfolding recall
    recall-nothing enc payload analysis here =
        ap (λ s. continued s (candidates fl stored s payload analysis)) here
        ∙ ap (continued scope) (no_candidates payload analysis)
        ∙ ap (answered fl stored enc settings scope payload analysis) fuse-nothing
        ∙ ap some (answer-nothing enc payload analysis)
      where
        continued : Scope → List (Candidate F) → Option (Text × List (Citation F))
        continued s cands =
            answered fl stored enc settings s payload analysis
              (rrf_fuse fl (group_by_source cands) settings.rrf_k)

sender_scope :
    (user_id session_id : Text) (sender : Option Text)
    → is_empty user_id ≡ false
    → sender ≡ some user_id
    → scope_for sender session_id ≡ user user_id
unfolding scope_for
sender_scope user_id session_id none named e = cc
sender_scope user_id session_id (some u) named e = ground (arith, named, e)

module _ {F : Type 0} (fl : Floats F) (order : IsOrdered fl) (rk : Ranking F)
    (turn_scan : Scan (Turn F)) (memory_scan : Scan (Memory F)) (embed : Text → Option (List F))
    (settings : Settings F) (enc : Option Encoding) where
  -- Whatever requests have come: once a user is deleted, every recall for that user answers with an
  -- empty context and no citation, whatever is asked and however it is analysed; for a user id that
  -- is not empty, and numbers that are ordered, with no NaN among them.
  pub recall-delete_user :
      {db : Db F}
      → Reach fl db
      → (user_id : Text) (payload : RecallIn) (analysis : Analysis) → is_empty user_id ≡ false
      → payload.user_id ≡ some user_id
      → recall fl
          (stored_reads fl rk turn_scan memory_scan embed settings (delete_user user_id db))
          enc
          settings
          payload
          analysis
        ≡ some ([], [])
  recall-delete_user {db = db} r user_id payload analysis named sent =
      let state = Reach-IsState fl (later r (user_deleted user_id db)) in
      recall-nothing fl order rk turn_scan memory_scan embed settings (delete_user user_id db)
        state.sound (user user_id) (IsVacant-delete_user user_id db state) enc payload analysis
        (sender_scope user_id payload.session_id payload.user_id named sent)
