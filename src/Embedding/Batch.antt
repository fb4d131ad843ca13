-- ===== src/Embedding/Batch.antt =====
-- A batch yields one element for each text, at its place.
use mathlib.Core.List.{◌++◌, append_assoc}
use higgsfield_memory_servic.Prelude.{
  ℕ, suc, Bool, true, false, not, ◌≡◌, refl, ap, sym, ◌∙◌, subst, Option, none, some, List, [], ◌∷◌,
  map, arith, if◌then◌else◌, length, take, filter, length-append, length-map,
}
use higgsfield_memory_servic.Text.{Text, is_empty, strip}
use higgsfield_memory_servic.Embedding.{
  nones, non_empty_idx, at, answered_batch, or_nones, embed_batch,
}
use higgsfield_memory_servic.Embedding.Aligned.{
  length-nones, prepend, aligned, after, assign-aligned, Fits, aligned-Fits, or_nones-Fits,
}

abbrev pub full : Text → Bool
full t = not (is_empty t)

at-append : (pre ts : List Text) (t : Text) → at (pre ++ (t ∷ ts)) (length pre) ≡ t
unfolding at
at-append [] ts t = refl
at-append (_ ∷ pre) ts t = at-append pre ts t

shifted :
    (pre ts l : List Text) (x : Text)
    → map (at ((pre ++ (x ∷ [])) ++ ts)) (non_empty_idx (length (pre ++ (x ∷ []))) ts) ≡ l
    → map (at (pre ++ (x ∷ ts))) (non_empty_idx (suc (length pre)) ts) ≡ l
shifted pre ts l x h =
    let longer : suc (length pre) ≡ length (pre ++ (x ∷ [])) =
      omega (arith, length-append pre (x ∷ [])) in
    (λ i. map (at (sym (append_assoc pre (x ∷ []) ts) i)) (non_empty_idx (longer i) ts)) ∙ h

-- The texts at the indices are those that are not empty.
at-non_empty_idx :
    (pre ts : List Text) → map (at (pre ++ ts)) (non_empty_idx (length pre) ts) ≡ filter full ts
unfolding non_empty_idx
at-non_empty_idx pre [] = refl
at-non_empty_idx pre ([] ∷ ts) =
    shifted pre ts (filter full ts) [] (at-non_empty_idx (pre ++ ([] ∷ [])) ts)
at-non_empty_idx pre ((c ∷ x) ∷ ts) =
    let rest =
      shifted pre ts (filter full ts) (c ∷ x) (at-non_empty_idx (pre ++ ((c ∷ x) ∷ [])) ts) in
    λ i. at-append pre ts (c ∷ x) i ∷ rest i

-- What is sent: a text without blanks around it, and 8000 characters at most.
abbrev pub cleaned : List Text → List Text
cleaned = map (λ t. take 8000 (strip t))

is_empty-map : {A B : Type 0} (f : A → B) (xs : List A) → is_empty (map f xs) ≡ is_empty xs
is_empty-map f [] = refl
is_empty-map f (x ∷ xs) = refl

eq_nil : {A : Type 0} (xs : List A) → is_empty xs ≡ true → xs ≡ []
eq_nil [] h = refl
eq_nil (x ∷ xs) h = cc

module _ {V : Type 0} where
  aligned-nones :
      (ts : List Text) → filter full ts ≡ [] → aligned {V = V} ts [] ≡ some (nones (length ts))
  unfolding nones
  aligned-nones [] h = refl
  aligned-nones ([] ∷ ts) h = ap (prepend none) (aligned-nones ts h)
  aligned-nones ((c ∷ t) ∷ ts) h = cc

  abbrev and_then : Option (List V) → (List V → Option (List (Option V))) → Option (List (Option V))
  and_then none f = none
  and_then (some vs) f = f vs

  -- The reference: the request for the texts that are not empty, and its vectors at their places.
  abbrev pub batch : (List Text → Option (List V)) → List Text → Option (List (Option V))
  batch send ts =
      and_then (if is_empty (filter full ts) then some [] else send (filter full ts)) (aligned ts)

  batch-Fits :
      (send : List Text → Option (List V)) (ts : List Text) → Fits (length ts) (batch send ts)
  batch-Fits send ts =
      by_reply (if is_empty (filter full ts) then some [] else send (filter full ts))
    where
      by_reply : (o : Option (List V)) → Fits (length ts) (and_then o (aligned ts))
      by_reply none = tt
      by_reply (some vs) = aligned-Fits ts vs

  module _ (send : List Text → Option (List V)) (cs : List Text) where
    abbrev idx : List ℕ
    idx = non_empty_idx 0 cs

    sent : map (at cs) idx ≡ filter full cs
    sent = at-non_empty_idx [] cs

    answered-aligned :
        (o : Option (List V)) → answered_batch o idx (length cs) ≡ and_then o (aligned cs)
    answered-aligned none = refl
    answered-aligned (some vs) = assign-aligned cs vs [] ∙ after_nothing (aligned cs vs)
      where
        after_nothing : (o : Option (List (Option V))) → after [] o ≡ o
        after_nothing none = refl
        after_nothing (some out) = refl

    by_idx :
        (b : Bool)
        → is_empty idx ≡ b
        → (if b
            then nones (length cs)
            else or_nones (length cs) (answered_batch (send (map (at cs) idx)) idx (length cs)))
          ≡ or_nones (length cs) (batch send cs)
    by_idx true h =
        let nothing = sym sent ∙ ap (map (at cs)) (eq_nil idx h) in
        rw nothing (sym (ap (or_nones (length cs)) (aligned-nones cs nothing)))
    by_idx false h =
        let some_text : is_empty (filter full cs) ≡ false =
          ap is_empty (sym sent) ∙ is_empty-map (at cs) idx ∙ h in
        ap (or_nones (length cs)) (
          answered-aligned (send (map (at cs) idx))
          ∙ ap (λ l. and_then (send l) (aligned cs)) sent
          ∙ sym (
              ap (λ b. and_then (if b then some [] else send (filter full cs)) (aligned cs))
                some_text))

  abbrev expected : Bool → (List Text → Option (List V)) → List Text → List (Option V)
  expected is_enabled send texts =
      if is_enabled
      then or_nones (length texts) (batch send (cleaned texts))
      else nones (length texts)

  expected-length :
      (is_enabled : Bool) (send : List Text → Option (List V)) (texts : List Text)
      → length (expected is_enabled send texts) ≡ length texts
  expected-length false send texts = length-nones V (length texts)
  expected-length true send texts = or_nones-Fits (length texts) (batch send (cleaned texts)) (
      subst (λ n. Fits n (batch send (cleaned texts))) (length-map texts _)
        (batch-Fits send (cleaned texts)))

  embed_batch-expected :
      (is_enabled : Bool) (send : List Text → Option (List V)) (texts : List Text)
      → embed_batch is_enabled send texts ≡ expected is_enabled send texts
  unfolding embed_batch nones
  embed_batch-expected false send [] = refl
  embed_batch-expected true send [] = refl
  embed_batch-expected false send (t ∷ texts) = refl
  embed_batch-expected true send (t ∷ texts) =
      let cs = cleaned (t ∷ texts) in
      subst
        (λ n.
          (if is_empty (idx send cs)
            then nones n
            else or_nones n (answered_batch (send (map (at cs) (idx send cs))) (idx send cs) n))
          ≡ or_nones n (batch send cs))
        (length-map (t ∷ texts) _) (by_idx send cs (is_empty (idx send cs)) refl)

  -- For all texts: a batch yields one element for each, and what it yields is what the request for
  -- the texts that are not empty answers, at the places of those texts, with nothing at the others.
  -- Without a client, after a failed request, or with more or fewer vectors than texts sent, it
  -- yields nothing for any text.
  pub embed_batch-eq-batch :
      (is_enabled : Bool) (send : List Text → Option (List V)) (texts : List Text)
      → (embed_batch is_enabled send texts ≡ (
          if is_enabled
          then or_nones (length texts) (batch send (cleaned texts))
          else nones (length texts)))
        × (length (embed_batch is_enabled send texts) ≡ length texts)
  embed_batch-eq-batch is_enabled send texts =
      let same = embed_batch-expected is_enabled send texts in
      (same, ap length same ∙ expected-length is_enabled send texts)
