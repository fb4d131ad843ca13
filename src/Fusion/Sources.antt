-- ===== src/Fusion/Sources.antt =====
-- What holds of everything that is fused holds of what the fusion returns.
use mathlib.Core.List.{Memᴰ}
use mathlib.Core.Option.{get_or}
use higgsfield_memory_servic.Prelude.{
  ℕ, suc, String, ◌≡◌, sym, subst, some, List, [], ◌∷◌, nat_eq, string_eq, pair_eq, ◌==◌, All,
  All-mono, All-append, Bool-cases, inl, inr,
}
use higgsfield_memory_servic.Numbers.{Floats, IsOrdered}
use higgsfield_memory_servic.Candidate.{Candidate}
use higgsfield_memory_servic.Dict.{Dict, lookup, insert}
use higgsfield_memory_servic.Fusion.{weight_of, rrf_fuse, bucket, group_by_source}
use higgsfield_memory_servic.Fusion.Events.{Event, ranked, events}
use higgsfield_memory_servic.Fusion.Ranking.{IsEntry, rrf_fuse_lem}

All_of_Mem : {A : Type 0} (P : A → Type 0) (x : A) (xs : List A) → Memᴰ x xs → All P xs → P x
All_of_Mem P x [] m h = elim m [ ]
All_of_Mem P x (y ∷ ys) (Memᴰ.head e) h = subst P (sym e) h.0
All_of_Mem P x (y ∷ ys) (Memᴰ.tail m) h = All_of_Mem P x ys m h.1

module _ {F : Type 0} (P : Candidate F → Type 0) where
  abbrev Groups : Dict String (List (Candidate F)) → Type 0
  Groups = All (λ g. All P g.1)

  lookup-Groups :
      (source : String) (groups : Dict String (List (Candidate F)))
      → Groups groups
      → All P (get_or (lookup source groups) [])
  unfolding lookup
  lookup-Groups source [] h = tt
  lookup-Groups source ((k, cands) ∷ groups) (hc, h) = elim (Bool-cases (source == k)) [
    | inl here ↦ rw here hc
    | inr later ↦ rw later (lookup-Groups source groups h)
  ]

  insert-Groups :
      (source : String) (cands : List (Candidate F)) (groups : Dict String (List (Candidate F)))
      → All P cands
      → Groups groups
      → Groups (insert source cands groups)
  unfolding insert
  insert-Groups source cands [] hc h = (hc, tt)
  insert-Groups source cands ((k, old) ∷ groups) hc (ho, h) = elim (Bool-cases (source == k)) [
    | inl here ↦ rw here (hc, h)
    | inr later ↦ rw later (ho, insert-Groups source cands groups hc h)
  ]

  bucket-Groups :
      (cands : List (Candidate F)) (groups : Dict String (List (Candidate F)))
      → All P cands
      → Groups groups
      → Groups (bucket cands groups)
  unfolding bucket
  bucket-Groups [] groups hc h = h
  bucket-Groups (c ∷ cands) groups (hc, hs) h = bucket-Groups cands _ hs (
      insert-Groups c.source _ groups
        (All-append P (get_or (lookup c.source groups) []) (c ∷ [])
          (lookup-Groups c.source groups h) (hc, tt))
        h)

  ranked-All :
      (weight : F) (rank : ℕ) (cands : List (Candidate F))
      → All P cands
      → All (λ (e : Event F). P e.cand) (ranked weight rank cands)
  unfolding ranked
  ranked-All weight rank [] h = tt
  ranked-All weight rank (c ∷ cands) h = (h.0, ranked-All weight (suc rank) cands h.1)

  module _ (fl : Floats F) (order : IsOrdered fl) where
    events-All :
        (groups : Dict String (List (Candidate F)))
        → Groups groups
        → All (λ (e : Event F). P e.cand) (events fl groups)
    unfolding events
    events-All [] h = tt
    events-All ((source, cands) ∷ groups) h =
        All-append _ (ranked (weight_of fl source) 0 cands) (events fl groups)
          (ranked-All (weight_of fl source) 0 cands h.0) (events-All groups h.1)

    entry-All :
        (groups : Dict String (List (Candidate F))) (k : ℕ) (entry : Candidate F × F)
        → Groups groups
        → IsEntry fl groups k entry
        → P entry.0
    entry-All groups k entry h e =
        let from = e.best.from in
        subst P from.same_cand (
          All_of_Mem (λ (v : Event F). P v.cand) from.hit (events fl groups) from.listed
            (events-All groups h))

    pub rrf_fuse-All :
        (cands : List (Candidate F)) (k : ℕ)
        → All P cands
        → (fused : List (Candidate F × F)) × (rrf_fuse fl (group_by_source cands) k ≡ some fused)
          × All (λ x. P x.0) fused
    rrf_fuse-All cands k h =
        let groups = group_by_source cands in
        let (fused, done, _, entries, _) = rrf_fuse_lem fl order groups k in
        (
          fused,
          done,
          All-mono _ (λ x. P x.0)
              (λ x. entry-All groups k x (unfold group_by_source in bucket-Groups cands [] h tt))
              fused entries,
        )
