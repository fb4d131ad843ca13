-- ===== src/Reconciler/Decisions.antt =====
-- What the decisions of the reconciler do to the rows of a key, whatever the order of the scan.
use higgsfield_memory_servic.Prelude.{
  ℕ, ◌<◌, ◌≤◌, Bool, true, false, not, ◌&&◌, ◌≡◌, refl, ◌∙◌, sym, ap, Option, none, some, List, [],
  ◌∷◌, map, arith, ◌==◌, nat_eq, if◌then◌else◌, filter, any, count, contains, All, count-filter,
  All-filter_of_All, All-mono, any_iff_count, count_ext, ==_refl, Bool-cases, inl, inr,
}
use higgsfield_memory_servic.Text.{Text, is_empty}
use higgsfield_memory_servic.Sorting.{count-sort}
use higgsfield_memory_servic.Models.{MemoryCandidate, key, Multiplicity, one, many}
use higgsfield_memory_servic.Taxonomy.{spec_for}
use higgsfield_memory_servic.Store.{Scope, Memory, Db, scope_eq}
use higgsfield_memory_servic.MemoryRepo.{Scan, is_about, newer, rows_about, deactivate, deactivated}
use higgsfield_memory_servic.Reconciler.{
  ReconcileDecision, skip, replace, ids, same_object, is_target, corrected, latest, is_correction,
  decide, active_about, reconcile, apply_decision,
}

-- An active row of the scope and key.
abbrev pub is_current : {F : Type 0} → Scope → Text → Memory F → Bool
is_current scope k m = is_about scope k m && m.active

module _ {F : Type 0} (sc : Scan (Memory F)) (scope : Scope) (k : Text) where
  pub count-active_about :
      (p : Memory F → Bool) (ms : List (Memory F))
      → count p (active_about sc scope k ms) ≡ count (λ m. is_current scope k m && p m) ms
  unfolding rows_about
  count-active_about p ms =
      count-filter p (λ m. m.active) _
      ∙ count-sort newer _ (sc.scan _)
      ∙ sc.count-scan _ _
      ∙ count-filter _ (is_about scope k) ms
      ∙ count_ext _ _ (λ m. ground arith) ms

  contains-ids :
      (i : ℕ) (rows : List (Memory F)) → contains (ids rows) i ≡ any (λ m. m.id == i) rows
  contains-ids i [] = refl
  contains-ids i (m ∷ rows) = ground (arith, contains-ids i rows)

  -- A test that some row passes is passed by some row of the list.
  count_pos :
      (p : Memory F → Bool) (m : Memory F) (ms : List (Memory F))
      → p m ≡ true
      → 0 < count p (m ∷ ms)
  count_pos p m ms h = rw h (omega arith)

  -- Each current row of the key is retired when the rows that the decision read are.
  listed :
      (all ms : List (Memory F))
      → ((p : Memory F → Bool) → count p ms ≤ count p all)
      → All
          (λ m.
            is_current scope k m ≡ true → contains (ids (active_about sc scope k all)) m.id ≡ true)
          ms
  listed all [] sub = tt
  listed all (m ∷ ms) sub = (λ h. own h, listed all ms λ p. rest p (sub p))
    where
      rest : (p : Memory F → Bool) → count p (m ∷ ms) ≤ count p all → count p ms ≤ count p all
      rest p h = omega arith

      own : is_current scope k m ≡ true → contains (ids (active_about sc scope k all)) m.id ≡ true
      own h =
          let p : Memory F → Bool = λ r. r.id == m.id in
          let q : Memory F → Bool = λ r. is_current scope k r && p r in
          let mine : q m ≡ true = rw h (==_refl m.id) in
          contains-ids m.id _
          ∙ (any_iff_count p (active_about sc scope k all)).1
              (rw (count-active_about p all) (omega (arith, count_pos q m ms mine, sub q)))

  -- Once the rows that the decision read are retired, the key has no current row.
  none_current :
      (gone : List ℕ) (ms : List (Memory F))
      → All (λ m. is_current scope k m ≡ true → contains gone m.id ≡ true) ms
      → count (is_current scope k) (map (deactivated gone) ms) ≡ 0
  none_current gone [] h = refl
  none_current gone (m ∷ ms) h = ground (arith, h.0, none_current gone ms h.1)

  -- Retiring an empty list of rows changes nothing.
  deactivated_none : (ms : List (Memory F)) → map (deactivated []) ms ≡ ms
  deactivated_none [] = refl
  deactivated_none (m ∷ ms) = ap (◌∷◌ m) (deactivated_none ms)

  pub apply_decision-memories :
      (decision : ReconcileDecision) (db : Db F)
      → (apply_decision decision db).memories
        ≡ map (deactivated decision.deactivate_ids) db.memories
  unfolding apply_decision deactivate
  apply_decision-memories decision db = by_ids decision.deactivate_ids
    where
      by_ids :
          (gone : List ℕ)
          → (if is_empty gone then db else deactivate gone db).memories
            ≡ map (deactivated gone) db.memories
      by_ids [] = sym (deactivated_none db.memories)
      by_ids (i ∷ gone) = refl

module _ {F : Type 0} (sc : Scan (Memory F)) (scope : Scope) (cand : MemoryCandidate F)
    (db : Db F) where
  abbrev active_rows : List (Memory F)
  active_rows = active_about sc scope (key cand) db.memories

  decide_new :
      (rows : List (Memory F))
      → any (same_object cand.object) rows ≡ false
      → decide one cand.object cand.raw_quote rows ≡ replace rows
  unfolding decide
  decide_new rows fresh = rw fresh refl

  reconcile_eq :
      reconcile sc scope cand db
      ≡ decide (spec_for cand.predicate).multiplicity cand.object cand.raw_quote active_rows
  unfolding reconcile
  reconcile_eq = refl

  pub reconcile_replaces :
      (spec_for cand.predicate).multiplicity ≡ one
      → any (same_object cand.object) active_rows ≡ false
      → reconcile sc scope cand db ≡ replace active_rows
  reconcile_replaces single fresh =
      reconcile_eq
      ∙ ap (λ mult. decide mult cand.object cand.raw_quote active_rows) single
      ∙ decide_new active_rows fresh

  pub apply_replace-current :
      count (is_current scope (key cand)) (apply_decision (replace active_rows) db).memories ≡ 0
  apply_replace-current =
      rw (apply_decision-memories sc scope (key cand) (replace active_rows) db) (
        none_current sc scope (key cand) (ids active_rows) db.memories
          (listed sc scope (key cand) db.memories db.memories λ p. omega arith))

-- The first of a list of identifiers.
abbrev pub head_of : List ℕ → Option ℕ
head_of [] = none
head_of (i ∷ _) = some i

-- What is true of every decision on the rows that it read.
record IsDecided {F : Type 0} (object : Text) (rows : List (Memory F)) (d : ReconcileDecision)
    : Type 0 where
  inserts : d.insert ≡ not (any (same_object object) rows)
  activates : d.active ≡ d.insert
  prior : d.supersedes ≡ head_of d.deactivate_ids
  own : All (λ i. any (λ m. m.id == i) rows ≡ true) d.deactivate_ids

module _ {F : Type 0} (object raw_quote : Text) where
  first_id-head_of : (rows : List (Memory F)) → (replace rows).supersedes ≡ head_of (ids rows)
  first_id-head_of [] = refl
  first_id-head_of (m ∷ rows) = refl

  -- Rows that were read, among those that were read.
  abbrev Among : List (Memory F) → List (Memory F) → Type 0
  Among all = All (λ r. any (λ m. m.id == r.id) all ≡ true)

  Among-cons : (m : Memory F) (all rows : List (Memory F)) → Among all rows → Among (m ∷ all) rows
  Among-cons m all [] h = tt
  Among-cons m all (r ∷ rows) h = (ground (arith, h.0), Among-cons m all rows h.1)

  Among-refl : (rows : List (Memory F)) → Among rows rows
  Among-refl [] = tt
  Among-refl (m ∷ rows) = (ground arith, Among-cons m rows rows (Among-refl rows))

  Among-ids :
      (all rows : List (Memory F))
      → Among all rows
      → All (λ i. any (λ m. m.id == i) all ≡ true) (ids rows)
  Among-ids all [] h = tt
  Among-ids all (r ∷ rows) h = (h.0, Among-ids all rows h.1)

  Among-latest : (rows : List (Memory F)) → Among rows (latest rows)
  Among-latest [] = tt
  Among-latest (m ∷ rows) = (ground arith, tt)

  Among-corrected : (rows : List (Memory F)) → Among rows (corrected raw_quote rows)
  unfolding corrected
  Among-corrected rows = elim (Bool-cases (is_empty (filter (is_target raw_quote) rows))) [
    | inl none_hit ↦ rw none_hit (Among-latest rows)
    | inr hit ↦ rw hit (All-filter_of_All _ (is_target raw_quote) rows (Among-refl rows))
  ]

  replace-IsDecided :
      (rows gone : List (Memory F))
      → any (same_object object) rows ≡ false
      → Among rows gone
      → IsDecided object rows (replace gone)
  replace-IsDecided rows gone fresh among = record {
    inserts = rw fresh refl;
    activates = refl;
    prior = first_id-head_of gone;
    own = Among-ids rows gone among;
  }

  skip-IsDecided :
      (rows : List (Memory F)) → any (same_object object) rows ≡ true → IsDecided object rows skip
  skip-IsDecided rows known = record {
    inserts = rw known refl;
    activates = refl;
    prior = refl;
    own = tt;
  }

  decide-IsDecided :
      (mult : Multiplicity) (rows : List (Memory F))
      → IsDecided object rows (decide mult object raw_quote rows)
  unfolding decide
  decide-IsDecided one rows = elim (Bool-cases (any (same_object object) rows)) [
    | inl known ↦ rw known (skip-IsDecided rows known)
    | inr fresh ↦ rw fresh (replace-IsDecided rows rows fresh (Among-refl rows))
  ]
  decide-IsDecided many rows = elim (Bool-cases (any (same_object object) rows)) [
    | inl known ↦ rw known (skip-IsDecided rows known)
    | inr fresh ↦ elim (Bool-cases (is_correction raw_quote)) [
      | inl corrects ↦
          rw (fresh, corrects)
            (replace-IsDecided rows (corrected raw_quote rows) fresh (Among-corrected rows))
      | inr adds ↦ rw (fresh, adds) (replace-IsDecided rows [] fresh tt)
    ]
  ]

any_of_count :
    {A : Type 0} (p q : A → Bool) (xs ys : List A) → count p xs ≡ count q ys → any p xs ≡ any q ys
any_of_count p q xs ys same = ground (arith, any_iff_count p xs, any_iff_count q ys, same)

-- The decision, read off the table and not off the scan of it.
pub record IsReconciled {F : Type 0} (scope : Scope) (cand : MemoryCandidate F)
    (ms : List (Memory F)) (d : ReconcileDecision) : Type 0 where
  pub inserts :
      d.insert ≡ not (any (λ m. is_current scope (key cand) m && same_object cand.object m) ms)
  pub activates : d.active ≡ d.insert
  pub prior : d.supersedes ≡ head_of d.deactivate_ids
  pub own :
      All (λ i. any (λ m. is_current scope (key cand) m && m.id == i) ms ≡ true) d.deactivate_ids

module _ {F : Type 0} (sc : Scan (Memory F)) (scope : Scope) (cand : MemoryCandidate F)
    (db : Db F) where
  any-active_about :
      (p : Memory F → Bool)
      → any p (active_about sc scope (key cand) db.memories)
        ≡ any (λ m. is_current scope (key cand) m && p m) db.memories
  any-active_about p =
      any_of_count p _ (active_about sc scope (key cand) db.memories) db.memories
        (count-active_about sc scope (key cand) p db.memories)

  -- For every candidate and every order of the scan: the decision inserts exactly if no active row
  -- of the scope and key has the candidate's object, the new row is active, it supersedes the first
  -- of the rows that are retired, and only active rows of the scope and key are retired.
  pub reconcile_lem : IsReconciled scope cand db.memories (reconcile sc scope cand db)
  unfolding reconcile
  reconcile_lem =
      let rows = active_about sc scope (key cand) db.memories in
      let d =
        decide-IsDecided cand.object cand.raw_quote (spec_for cand.predicate).multiplicity rows in
      record {
        inserts = d.inserts ∙ ap not (any-active_about (same_object cand.object));
        activates = d.activates;
        prior = d.prior;
        own = All-mono _ _ (λ i h. sym (any-active_about (λ m. m.id == i)) ∙ h) _ d.own;
      }
