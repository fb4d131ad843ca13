-- ===== src/Fusion/Scores.antt =====
-- What the loops leave under a key of `fused_score`.
use mathlib.Core.Option.{get_or}
use higgsfield_memory_servic.Prelude.{
  ℕ, ◌≡◌, refl, ◌∙◌, ap, Option, none, some, List, [], ◌∷◌, nat_eq, string_eq, pair_eq, ◌==◌,
  if◌then◌else◌, arith,
}
use higgsfield_memory_servic.Numbers.{Floats}
use higgsfield_memory_servic.Dict.{lookup, lookup-insert, NodupKeys, insert-NodupKeys}
use higgsfield_memory_servic.Fusion.{Key, key_of, Fused, fuse_one}
use higgsfield_memory_servic.Fusion.Events.{Event, share, sum_shares, fuse_events, is_hit}

module _ {F : Type 0} (fl : Floats F) (k : ℕ) where
  module _ (key : Key) where
    -- The score under the key after one hit, from the score before it.
    abbrev score_step : Event F → Option F → Option F
    score_step e old =
        if key == key_of e.cand then some (fl.add (get_or old fl.zero_f) (share fl k e)) else old

    abbrev score_after : Option F → List (Event F) → Option F
    score_after old [] = old
    score_after old (e ∷ es) = score_after (score_step e old) es

    lookup-fuse_one :
        (e : Event F) (st : Fused F)
        → lookup key (fuse_one fl k e.weight e.rank e.cand st).fused_score
          ≡ score_step e (lookup key st.fused_score)
    unfolding fuse_one
    lookup-fuse_one e st =
        let x = fl.add (get_or (lookup (key_of e.cand) st.fused_score) fl.zero_f) (share fl k e) in
        ground (arith, lookup-insert key (key_of e.cand) x st.fused_score)

    lookup-fuse_events :
        (es : List (Event F)) (st : Fused F)
        → lookup key (fuse_events fl k es st).fused_score
          ≡ score_after (lookup key st.fused_score) es
    unfolding fuse_events
    lookup-fuse_events [] st = refl
    lookup-fuse_events (e ∷ es) st =
        lookup-fuse_events es _ ∙ ap (λ old. score_after old es) (lookup-fuse_one e st)

    score_after-some :
        (x : F) (es : List (Event F)) → score_after (some x) es ≡ some (sum_shares fl k key x es)
    score_after-some x [] = refl
    score_after-some x (e ∷ es) =
        ground (arith, score_after-some x es, score_after-some (fl.add x (share fl k e)) es)

    score_after-none :
        (es : List (Event F))
        → score_after none es
          ≡ (if is_hit key es then some (sum_shares fl k key fl.zero_f es) else none)
    score_after-none [] = refl
    score_after-none (e ∷ es) =
        ground (arith, score_after-none es, score_after-some (fl.add fl.zero_f (share fl k e)) es)

    -- From empty dicts, exactly the keys that were hit have a score: the sum of their shares.
    pub lookup-fused_score :
        (es : List (Event F)) (st : Fused F)
        → lookup key st.fused_score ≡ none
        → lookup key (fuse_events fl k es st).fused_score
          ≡ (if is_hit key es then some (sum_shares fl k key fl.zero_f es) else none)
    lookup-fused_score es st h =
        lookup-fuse_events es st ∙ ap (λ old. score_after old es) h ∙ score_after-none es

  pub fused_score-NodupKeys :
      (es : List (Event F)) (st : Fused F)
      → NodupKeys st.fused_score
      → NodupKeys (fuse_events fl k es st).fused_score
  unfolding fuse_events fuse_one
  fused_score-NodupKeys [] st u = u
  fused_score-NodupKeys (e ∷ es) st u =
      fused_score-NodupKeys es _ (insert-NodupKeys (key_of e.cand) _ st.fused_score u)
