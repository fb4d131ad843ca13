-- ===== src/Service/Bystanders.antt =====
-- What GET /users/{id}/memories lists after the requests of other users
-- (src/memory_service/api/routes_memories.py: it returns `list_by_user` as it is).
use higgsfield_memory_servic.Prelude.{
  ℕ, Bool, true, false, not, ◌≡◌, ◌≢◌, refl, sym, ap, subst, ◌∙◌, Option, none, some, List, [], ◌∷◌,
  map, arith, ◌==◌, nat_eq, list_eq, option_eq, if◌then◌else◌, filter, contains, All, All-mono,
  All_of_map, inl, inr, Bool-cases, eq_of_==,
}
use higgsfield_memory_servic.Text.{Text}
use higgsfield_memory_servic.Numbers.{Floats}
use higgsfield_memory_servic.Datetime.{Datetime}
use higgsfield_memory_servic.Models.{MemoryCandidate}
use higgsfield_memory_servic.Dict.{lookup}
use higgsfield_memory_servic.Store.{Scope, user, Memory, Db, scope_eq}
use higgsfield_memory_servic.Store.Scopes.{Scopes, turn_scopes, memory_scopes, RefersTo, All-lookup}
use higgsfield_memory_servic.Store.Sound.{IsPlaced}
use higgsfield_memory_servic.TurnRepo
use higgsfield_memory_servic.TurnRepo.{TurnIn, null_if_gone, delete_turns, forget_turns}
use higgsfield_memory_servic.MemoryRepo
use higgsfield_memory_servic.Ingest.{ingest_turn}
use higgsfield_memory_servic.Ingest.Bystanders.{ingest_turn-rows_of}
use higgsfield_memory_servic.MemoryRepo.{Scan, delete_memories, delete_entities, forget_priors}
use higgsfield_memory_servic.MemoryRepo.Queries.{row_to_memory, newer_or_smaller, list_by_user}
use higgsfield_memory_servic.Sorting.{sort}
use higgsfield_memory_servic.Admin.{delete_user}
use higgsfield_memory_servic.Admin.Erasure.{NoneOf, delete_user-IsErased}
use higgsfield_memory_servic.Service.{Reach}
use higgsfield_memory_servic.Service.Forgetting.{user_of_scope}
use higgsfield_memory_servic.Service.Invariant.{IsState, Reach-IsState}

-- A reference to a row of another scope than those of the deleted rows is to none of them.
contains-elsewhere :
    {A : Type 0} (id : A → ℕ) (scope : A → Scope) (p : A → Bool) (d : Scopes) (s : Scope) (k : ℕ)
    (rows : List A)
    → All (λ x. lookup (id x) d ≡ some (scope x)) rows
    → All (λ x. p x ≡ true → scope x ≢ s) rows
    → lookup k d ≡ some s
    → contains (map id (filter p rows)) k ≡ false
contains-elsewhere id scope p d s k [] found other e = refl
contains-elsewhere id scope p d s k (x ∷ rows) (here, found) (differs, other) e =
    let rest = contains-elsewhere id scope p d s k rows found other e in
    elim (Bool-cases (p x)) [
      | inr stays ↦ rw stays rest
      | inl goes ↦ rw goes (elim (Bool-cases (k == id x)) [
        | inr ne ↦ ground (arith, ne, rest)
        | inl same ↦ let same_key = eq_of_== k (id x) same in absurd (differs goes cc)
      ])
    ]

some_differs : (a b : Text) → a == b ≡ false → some a ≢ some b
some_differs a b ne e = ground (arith, ne, e)

scopes_differ : (a b : Scope) → a == b ≡ false → a ≢ b
scopes_differ a b ne e = ground (arith, ne, e)

null_if_gone-same :
    (gone : List ℕ) (d : Scopes) (o : Option ℕ) (s : Scope)
    → ((k : ℕ) → lookup k d ≡ some s → contains gone k ≡ false)
    → RefersTo d o s
    → null_if_gone gone o ≡ o
null_if_gone-same gone d none s there h = refl
null_if_gone-same gone d (some k) s there h = rw (there k h) refl

module _ {F : Type 0} where
  -- Rows of one scope that the cascades leave as they are are listed as before.
  filter-forget :
      (turns priors : List ℕ) (a b : Scope) (ms : List (Memory F))
      → a == b ≡ false
      → All (λ m. m.scope ≡ b → forget_turns turns (forget_priors priors m) ≡ m) ms
      → filter
          (λ m. m.scope == b)
          (map
            (forget_turns turns)
            (map (forget_priors priors) (filter (λ m. not (m.scope == a)) ms)))
        ≡ filter (λ m. m.scope == b) ms
  filter-forget turns priors a b [] ne h = refl
  filter-forget turns priors a b (m ∷ ms) ne (same, h) =
      let rest = filter-forget turns priors a b ms ne h in
      elim (Bool-cases (m.scope == a)) [
        | inl old ↦ rw old (rw (ap (λ s. s == b) (eq_of_== m.scope a old) ∙ ne) rest)
        | inr kept ↦ elim (Bool-cases (m.scope == b)) [
          | inl mine ↦ rw kept (rw mine (λ i. same (eq_of_== m.scope b mine) i ∷ rest i))
          | inr foreign ↦ rw kept (rw foreign rest)
        ]
      ]

  filter-NoneOf : (p : Memory F → Bool) (ms : List (Memory F)) → NoneOf p ms → filter p ms ≡ []
  filter-NoneOf p [] h = refl
  filter-NoneOf p (m ∷ ms) (none_here, h) = rw none_here (filter-NoneOf p ms h)

  -- The deletion of a user does not change the rows of another user.
  filter-delete_user :
      (a b : Text) (db : Db F)
      → IsState db
      → a == b ≡ false
      → filter (λ m. m.scope == user b) (delete_user a db).memories
        ≡ filter (λ m. m.scope == user b) db.memories
  unfolding delete_user TurnRepo.delete_by_user MemoryRepo.delete_by_user delete_turns
      delete_memories delete_entities
  filter-delete_user a b db state ne =
      filter-forget gone_turns gone_memories (user a) (user b) db.memories differ
        (All-mono _ _ unforgotten db.memories state.sound.rows)
    where
      gone_turns : List ℕ
      gone_turns = map (λ t. t.id) (filter (λ t. t.user_id == some a) db.turns)

      gone_memories : List ℕ
      gone_memories = map (λ m. m.id) (filter (λ m. m.scope == user a) db.memories)

      differ : ◌==◌ {A = Scope} (user a) (user b) ≡ false
      differ = ground (arith, ne)

      turns_stay :
          (k : ℕ) → lookup k (turn_scopes db.turns) ≡ some (user b) → contains gone_turns k ≡ false
      turns_stay k =
          contains-elsewhere (λ t. t.id) (λ t. t.scope) (λ t. t.user_id == some a)
            (turn_scopes db.turns) (user b) k db.turns
            (All_of_map _ _ db.turns (All-lookup (turn_scopes db.turns) state.sound.turn_ids))
            (All-mono _ _
              (λ t filed sent here.
                let hers = user_of_scope b t.session_id t.user_id (sym filed ∙ here) in
                some_differs a b ne (sym (eq_of_== t.user_id (some a) sent) ∙ hers))
              db.turns state.filed)

      memories_stay :
          (k : ℕ)
          → lookup k (memory_scopes db.memories) ≡ some (user b)
          → contains gone_memories k ≡ false
      memories_stay k =
          contains-elsewhere (λ m. m.id) (λ m. m.scope) (λ m. m.scope == user a)
            (memory_scopes db.memories) (user b) k db.memories
            (All_of_map _ _ db.memories
              (All-lookup (memory_scopes db.memories) state.sound.memory_ids))
            (All-mono _ _
              (λ m placed hers here.
                scopes_differ (user a) (user b) differ
                  (sym (eq_of_== m.scope (user a) hers) ∙ here))
              db.memories state.sound.rows)

      unforgotten :
          (m : Memory F)
          → IsPlaced (turn_scopes db.turns) (memory_scopes db.memories) m
          → m.scope ≡ user b
          → forget_turns gone_turns (forget_priors gone_memories m) ≡ m
      unforgotten m placed here =
          let source =
            null_if_gone-same gone_turns _ m.source_turn (user b) turns_stay
              (subst (RefersTo _ m.source_turn) here placed.source) in
          let prior =
            null_if_gone-same gone_memories _ m.supersedes (user b) memories_stay
              (subst (RefersTo _ m.supersedes) here placed.prior) in
          λ i. record m { source_turn = source i; supersedes = prior i }

module _ {F : Type 0} (fl : Floats F) where
  -- Whatever requests have come: once a user is deleted, GET /users/{id}/memories lists nothing for
  -- that user, and for every other user exactly what it listed before, in the same order.
  pub list_by_user-delete_user :
      {db : Db F}
      → Reach fl db
      → (a b : Text)
      → list_by_user b (delete_user a db) ≡ (if a == b then [] else list_by_user b db)
  unfolding list_by_user
  list_by_user-delete_user {db = db} r a b = elim (Bool-cases (a == b)) [
    | inl same ↦
        let gone = (delete_user-IsErased b db).memories in
        rw same (
          subst (λ u. list_by_user b (delete_user u db) ≡ []) (sym (eq_of_== a b same))
            (ap (λ ms. map row_to_memory (sort newer_or_smaller ms))
              (filter-NoneOf (λ m. m.scope == user b) (delete_user b db).memories gone)))
    | inr ne ↦ rw ne (
        ap (λ ms. map row_to_memory (sort newer_or_smaller ms))
          (filter-delete_user a b db (Reach-IsState fl r) ne))
  ]

  -- For every turn, its embedding and its candidates, every order in which the tables are read, and
  -- every user but the one that the turn is posted for: after any requests, the transaction of
  -- POST /turns leaves what GET /users/{id}/memories lists for that user as it was.
  pub list_by_user-ingest_turn :
      {db : Db F}
      → Reach fl db
      → (sc : Scan (Memory F)) (now : Datetime) (payload : TurnIn F) → (embedding : Option (List F))
      → (candidates : List (MemoryCandidate F × Option (List F))) (user_id : Text)
      → payload.user_id ≢ some user_id
      → list_by_user user_id (ingest_turn fl sc now payload embedding candidates db)
        ≡ list_by_user user_id db
  unfolding list_by_user
  list_by_user-ingest_turn {db = db} r sc now payload embedding candidates user_id apart =
      ap (λ ms. map row_to_memory (sort newer_or_smaller ms))
        (ingest_turn-rows_of fl sc now payload embedding candidates db (Reach-IsState fl r).sound
          (user user_id) (λ e. apart (user_of_scope user_id payload.session_id payload.user_id e)))
