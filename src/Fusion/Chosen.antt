-- ===== src/Fusion/Chosen.antt =====
-- What the loops leave under a key of `chosen_cand`.
use mathlib.Core.List.{Memᴰ}
use higgsfield_memory_servic.Prelude.{
  ℕ, true, false, ◌≡◌, refl, ◌∙◌, ap, Option, none, some, List, [], ◌∷◌, nat_eq, string_eq, pair_eq,
  ◌==◌, if◌then◌else◌, arith, ◌⊎◌, inl, inr, All, Bool-cases, eq_of_==, sym,
}
use higgsfield_memory_servic.Numbers.{Floats, IsOrdered}
use higgsfield_memory_servic.Candidate.{Candidate}
use higgsfield_memory_servic.Dict.{lookup, lookup-insert}
use higgsfield_memory_servic.Fusion.{Key, key_of, Fused, fuse_one}
use higgsfield_memory_servic.Fusion.Events.{Event, fuse_events, is_hit}

abbrev Best : Type 0 → Type 0
Best F = Option (Candidate F × F)

module _ {F : Type 0} (fl : Floats F) (key : Key) where
  abbrev stronger : Candidate F → F → Best F → Best F
  stronger c weight none = some (c, weight)
  stronger c weight (some prev) = if fl.lt prev.1 weight then some (c, weight) else some prev

  abbrev chosen_step : Event F → Best F → Best F
  chosen_step e old = if key == key_of e.cand then stronger e.cand e.weight old else old

  abbrev chosen_after : Best F → List (Event F) → Best F
  chosen_after old [] = old
  chosen_after old (e ∷ es) = chosen_after (chosen_step e old) es

  lookup-fuse_one :
      (k : ℕ) (e : Event F) (st : Fused F)
      → lookup key (fuse_one fl k e.weight e.rank e.cand st).chosen_cand
        ≡ chosen_step e (lookup key st.chosen_cand)
  unfolding fuse_one
  lookup-fuse_one k e st =
      ground (arith, lookup-insert key (key_of e.cand) (e.cand, e.weight) st.chosen_cand)

  pub lookup-chosen_cand :
      (k : ℕ) (es : List (Event F)) (st : Fused F)
      → lookup key (fuse_events fl k es st).chosen_cand
        ≡ chosen_after (lookup key st.chosen_cand) es
  unfolding fuse_events
  lookup-chosen_cand k [] st = refl
  lookup-chosen_cand k (e ∷ es) st =
      lookup-chosen_cand k es _ ∙ ap (λ old. chosen_after old es) (lookup-fuse_one k e st)

  -- Some hit is the candidate, from a source of the weight.
  pub record IsListed (es : List (Event F)) (c : Candidate F) (weight : F) : Type 0 where
    pub hit : Event F
    pub listed : Memᴰ hit es
    pub same_cand : hit.cand ≡ c
    pub same_weight : hit.weight ≡ weight

  IsListed-cons :
      {es : List (Event F)} {c : Candidate F} {w : F} (e : Event F)
      → IsListed es c w
      → IsListed (e ∷ es) c w
  IsListed-cons e l = record {
    hit = l.hit;
    listed = Memᴰ.tail l.listed;
    same_cand = l.same_cand;
    same_weight = l.same_weight;
  }

  IsListed-head : (e : Event F) (es : List (Event F)) → IsListed (e ∷ es) e.cand e.weight
  IsListed-head e es = record {
    hit = e;
    listed = Memᴰ.head refl;
    same_cand = refl;
    same_weight = refl;
  }

  -- The candidate has the key, and no hit of the key comes from a stronger source.
  abbrev pub IsStrongest : List (Event F) → F → Type 0
  IsStrongest es weight = All (λ e. key == key_of e.cand ≡ true → fl.lt weight e.weight ≡ false) es

  -- The candidate has the key and comes from a strongest source among those that hit it.
  pub record IsBest (es : List (Event F)) (c : Candidate F) : Type 0 where
    pub weight : F
    pub has_key : key_of c ≡ key
    pub from : IsListed es c weight
    pub strongest : IsStrongest es weight

  module _ (order : IsOrdered fl) where
    not_lt_self : (w : F) → fl.lt w w ≡ false
    not_lt_self w = ground (arith, order.lt_asym w w)

    -- A choice made so far is only replaced by a stronger one.
    abbrev Outcome : List (Event F) → Candidate F → F → Type 0
    Outcome es c w =
        (d : Candidate F) × (v : F) × (chosen_after (some (c, w)) es ≡ some (d, v))
        × (key_of d ≡ key)
        × IsStrongest es v
        × (fl.lt v w ≡ false)
        × (IsListed es d v ⊎ ((d ≡ c) × (v ≡ w)))

    chosen_after_some :
        (es : List (Event F)) (c : Candidate F) (w : F) → key_of c ≡ key → Outcome es c w
    chosen_after_some [] c w h = (c, w, refl, h, tt, not_lt_self w, inr (refl, refl))
    chosen_after_some (e ∷ es) c w h = elim (Bool-cases (key == key_of e.cand)) [
      | inr miss ↦
          let (d, v, eq, k, best, ge, from) = chosen_after_some es c w h in
          (d, v, ap (λ o. chosen_after o es) (stays miss) ∙ eq, k, (λ p. cc, best), ge, later from)
      | inl hit ↦ elim (Bool-cases (fl.lt w e.weight)) [
        | inl up ↦
            let (d, v, eq, k, best, ge, from) =
              chosen_after_some es e.cand e.weight (key_hit hit) in
            (
              d,
              v,
              ap (λ o. chosen_after o es) (moves hit up) ∙ eq,
              k,
              (λ p. ge, best),
              order.ge_trans v e.weight w ge (order.lt_asym w e.weight up),
              inl (replaced from),
            )
        | inr keep ↦
            let (d, v, eq, k, best, ge, from) = chosen_after_some es c w h in
            (
              d,
              v,
              ap (λ o. chosen_after o es) (keeps keep) ∙ eq,
              k,
              (λ p. order.ge_trans v w e.weight ge keep, best),
              ge,
              later from,
            )
      ]
    ]
      where
        key_hit : key == key_of e.cand ≡ true → key_of e.cand ≡ key
        key_hit hit = sym (eq_of_== key (key_of e.cand) hit)

        stays : key == key_of e.cand ≡ false → chosen_step e (some (c, w)) ≡ some (c, w)
        stays miss = ground arith

        moves :
            key == key_of e.cand ≡ true
            → fl.lt w e.weight ≡ true
            → chosen_step e (some (c, w)) ≡ some (e.cand, e.weight)
        moves hit up = ground arith

        keeps : fl.lt w e.weight ≡ false → chosen_step e (some (c, w)) ≡ some (c, w)
        keeps keep = ground arith

        later :
            {d : Candidate F} {v : F}
            → IsListed es d v ⊎ ((d ≡ c) × (v ≡ w))
            → IsListed (e ∷ es) d v ⊎ ((d ≡ c) × (v ≡ w))
        later (inl l) = inl (IsListed-cons e l)
        later (inr p) = inr p

        replaced :
            {d : Candidate F} {v : F}
            → IsListed es d v ⊎ ((d ≡ e.cand) × (v ≡ e.weight))
            → IsListed (e ∷ es) d v
        replaced (inl l) = IsListed-cons e l
        replaced (inr p) = record {
          hit = e;
          listed = Memᴰ.head refl;
          same_cand = sym p.0;
          same_weight = sym p.1;
        }

    -- A key that was hit gets a candidate of the strongest source that hit it.
    pub chosen_after-none :
        (es : List (Event F))
        → is_hit key es ≡ true
        → (c : Candidate F) × (w : F) × (chosen_after none es ≡ some (c, w)) × IsBest es c
    chosen_after-none [] h = cc
    chosen_after-none (e ∷ es) h = elim (Bool-cases (key == key_of e.cand)) [
      | inl hit ↦
          let k0 = sym (eq_of_== key (key_of e.cand) hit) in
          let (d, v, eq, k, best, ge, from) = chosen_after_some es e.cand e.weight k0 in
          (
            d,
            v,
            ap (λ o. chosen_after o es) (starts hit) ∙ eq,
            record { weight = v; has_key = k; from = listed from; strongest = (λ p. ge, best) },
          )
      | inr miss ↦
          let (d, v, eq, b) = chosen_after-none es (ground arith) in
          (
            d,
            v,
            ap (λ o. chosen_after o es) (skips miss) ∙ eq,
            record {
              weight = b.weight;
              has_key = b.has_key;
              from = IsListed-cons e b.from;
              strongest = (λ p. cc, b.strongest);
            },
          )
    ]
      where
        starts : key == key_of e.cand ≡ true → chosen_step e none ≡ some (e.cand, e.weight)
        starts hit = ground arith

        skips : key == key_of e.cand ≡ false → chosen_step e none ≡ none
        skips miss = ground arith

        listed :
            {d : Candidate F} {v : F}
            → IsListed es d v ⊎ ((d ≡ e.cand) × (v ≡ e.weight))
            → IsListed (e ∷ es) d v
        listed (inl l) = IsListed-cons e l
        listed (inr p) = record {
          hit = e;
          listed = Memᴰ.head refl;
          same_cand = sym p.0;
          same_weight = sym p.1;
        }
