-- ===== src/MemoryRepo/Recompute.antt =====
-- `recompute_active`: which rows of a key are active afterwards, whatever the order of the scan.
use higgsfield_memory_servic.Prelude.{
  ℕ, ◌<◌, ◌≤◌, Bool, true, false, ◌&&◌, ◌≡◌, refl, ◌∙◌, ap, none, List, [], ◌∷◌, map, arith, ◌==◌,
  ==_refl, nat_eq, if◌then◌else◌, any, count, count-map, count-filter, count_ext, count_mono,
  any_iff_count,
}
use higgsfield_memory_servic.Text.{Text}
use higgsfield_memory_servic.Sorting.{count-sort}
use higgsfield_memory_servic.Dict.{lookup, NodupKeys}
use higgsfield_memory_servic.Store.{Scope, Memory, Db, scope_eq}
use higgsfield_memory_servic.Store.Scopes.{memory_scopes}
use higgsfield_memory_servic.MemoryRepo.{
  Scan, is_about, newer, rows_about, set_inactive, set_active, activate_first, recompute_active,
}

module _ {F : Type 0} where
  count_unlisted :
      (i : ℕ) (ms : List (Memory F))
      → lookup i (memory_scopes ms) ≡ none
      → count (λ m. i == m.id) ms ≡ 0
  unfolding lookup
  count_unlisted i [] h = refl
  count_unlisted i (m ∷ ms) h = ground (arith, count_unlisted i ms)

  -- An identifier is that of one row at most.
  count-id-le :
      (i : ℕ) (ms : List (Memory F)) → NodupKeys (memory_scopes ms) → count (λ m. i == m.id) ms ≤ 1
  count-id-le i [] u = omega arith
  count-id-le i (m ∷ ms) (fresh, u) = ground (arith, count-id-le i ms u, count_unlisted i ms)

module _ {F : Type 0} (sc : Scan (Memory F)) (scope : Scope) (k : Text) where
  count-rows_about :
      (p : Memory F → Bool) (ms : List (Memory F))
      → count p (rows_about sc scope k ms) ≡ count (λ m. is_about scope k m && p m) ms
  unfolding rows_about
  count-rows_about p ms =
      count-sort newer p (sc.scan _) ∙ sc.count-scan p _ ∙ count-filter p (is_about scope k) ms

  is_about-set_inactive :
      (m : Memory F) → is_about scope k (set_inactive scope k m) ≡ is_about scope k m
  is_about-set_inactive m = by_test (is_about scope k m)
    where
      by_test :
          (b : Bool)
          → is_about scope k (if b then record m { active = false } else m) ≡ is_about scope k m
      by_test true = refl
      by_test false = refl

  id-set_inactive : (m : Memory F) → (set_inactive scope k m).id ≡ m.id
  id-set_inactive m = by_test (is_about scope k m)
    where
      by_test : (b : Bool) → (if b then record m { active = false } else m).id ≡ m.id
      by_test true = refl
      by_test false = refl

  -- Active after both updates: the row of the key that has the identifier.
  active_after :
      (i : ℕ) (m : Memory F)
      → (is_about scope k (set_active i (set_inactive scope k m))
          && (set_active i (set_inactive scope k m)).active)
        ≡ (is_about scope k m && m.id == i)
  active_after i m = by_tests (is_about scope k m) refl
    where
      kept :
          (b : Bool) (r : Memory F)
          → is_about scope k (if b then record r { active = true } else r) ≡ is_about scope k r
      kept true r = refl
      kept false r = refl

      own :
          is_about scope k m ≡ true
          → (b : Bool)
          → (is_about scope k
                (if b then record m { active = true } else record m { active = false })
              && (if b then record m { active = true } else record m { active = false }).active)
            ≡ (true && b)
      own h true = rw h refl
      own h false = rw h refl

      by_tests :
          (b : Bool)
          → is_about scope k m ≡ b
          → (is_about scope k (set_active i (set_inactive scope k m))
              && (set_active i (set_inactive scope k m)).active)
            ≡ (is_about scope k m && m.id == i)
      by_tests true h = rw h (own h (m.id == i))
      by_tests false h =
          rw
            (
              kept ((set_inactive scope k m).id == i) (set_inactive scope k m),
              is_about-set_inactive m,
              h,
            )
            refl

  count-set_inactive :
      (p : Memory F → Bool) (q : Memory F → Bool)
      → ((m : Memory F) → p (set_inactive scope k m) ≡ q m)
      → (ms : List (Memory F))
      → count (λ m. is_about scope k m && p m) (map (set_inactive scope k) ms)
        ≡ count (λ m. is_about scope k m && q m) ms
  count-set_inactive p q same ms =
      count-map _ (set_inactive scope k) ms
      ∙ count_ext _ _ (λ m i. is_about-set_inactive m i && same m i) ms

  count-active_after :
      (i : ℕ) (ms : List (Memory F))
      → count
          (λ m. is_about scope k m && m.active)
          (map (set_active i) (map (set_inactive scope k) ms))
        ≡ count (λ m. is_about scope k m && m.id == i) ms
  count-active_after i ms =
      count-map _ (set_active i) (map (set_inactive scope k) ms)
      ∙ count-map _ (set_inactive scope k) ms
      ∙ count_ext _ _ (active_after i) ms

  one_id :
      (i : ℕ) (ms : List (Memory F))
      → NodupKeys (memory_scopes ms)
      → count (λ m. is_about scope k m && m.id == i) ms ≤ 1
  one_id i ms u =
      let wider =
        count_mono (λ m. is_about scope k m && m.id == i) (λ m. i == m.id)
          (λ m h. same_id (is_about scope k m) m.id h) ms in
      omega (arith, wider, count-id-le i ms u)
    where
      same_id : (b : Bool) (j : ℕ) → (b && j == i) ≡ true → (i == j) ≡ true
      same_id b j h = ground arith

  -- The newest row of the key is its only active one.
  only_one :
      (ms rows : List (Memory F))
      → NodupKeys (memory_scopes ms)
      → ((p : Memory F → Bool)
          → count p rows ≡ count (λ m. is_about scope k m && p m) (map (set_inactive scope k) ms))
      → any (is_about scope k) ms ≡ true
      → count
          (λ m. is_about scope k m && m.active)
          (activate_first rows (map (set_inactive scope k) ms))
        ≡ 1
  only_one ms [] u same h =
      let none_about =
        same (λ _. true) ∙ count-set_inactive (λ _. true) (λ _. true) (λ m. refl) ms in
      let some_about = (any_iff_count (is_about scope k) ms).0 h in
      let wider =
        count_ext (λ m. is_about scope k m && true) (is_about scope k)
          (λ m. and_true (is_about scope k m)) ms in
      absurd (omega (arith, none_about, some_about, wider))
    where
      and_true : (b : Bool) → (b && true) ≡ b
      and_true true = refl
      and_true false = refl
  only_one ms (r ∷ rows) u same h =
      let hit =
        same (λ m. m.id == r.id)
        ∙ count-set_inactive (λ m. m.id == r.id) (λ m. m.id == r.id)
            (λ m. ap (λ j. j == r.id) (id-set_inactive m)) ms in
      count-active_after r.id ms
      ∙ between (count (λ m. m.id == r.id) (r ∷ rows)) (rw (==_refl r.id) (omega arith)) hit
          (one_id r.id ms u)
    where
      between : (n : ℕ) {m : ℕ} → 0 < n → n ≡ m → m ≤ 1 → m ≡ 1
      between n lt eq le = omega arith

  -- For every table in which no identifier is taken twice and every order of the scan: if the scope
  -- and key have a row, exactly one row of the scope and key is active after `recompute_active`,
  -- whatever was active before and whatever the multiplicity of the predicate.
  pub recompute_active_one :
      (db : Db F)
      → NodupKeys (memory_scopes db.memories)
      → any (is_about scope k) db.memories ≡ true
      → count (λ m. is_about scope k m && m.active) (recompute_active sc scope k db).memories ≡ 1
  unfolding recompute_active
  recompute_active_one db u h =
      only_one db.memories _ u (λ p. count-rows_about p (map (set_inactive scope k) db.memories)) h
