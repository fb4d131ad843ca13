-- ===== src/Embedding.antt =====
-- src/memory_service/embedding/client.py. The endpoint, and what goes wrong on the way to it, come
-- from outside. A text is never None here: an empty one is treated alike.
pub mod Aligned
pub mod Batch
use higgsfield_memory_servic.Prelude.{
  ℕ, zero, suc, Bool, true, false, not, Option, none, some, List, [], ◌∷◌, map, if◌then◌else◌,
  length, take,
}
use higgsfield_memory_servic.Text.{Text, is_empty, strip}

-- The outcome of one request: a TimeoutError or a ConnectionError is retried, another error is not.
pub data Attempt (V : Type 0) : Type 0 where
  embedded : V → Attempt V
  interrupted rejected : Attempt V

unfoldable pub non_empty_idx : ℕ → List Text → List ℕ
non_empty_idx i [] = []
non_empty_idx i (t ∷ cleaned) =
    let rest = non_empty_idx (suc i) cleaned in if is_empty t then rest else i ∷ rest

-- `cleaned[i]`
unfoldable pub at : List Text → ℕ → Text
at [] i = []
at (t ∷ cleaned) zero = t
at (t ∷ cleaned) (suc i) = at cleaned i

module _ {V : Type 0} where
  -- The loop of tenacity: `send n` is the n-th request.
  unfoldable pub retrying : (ℕ → Text → Attempt V) → ℕ → ℕ → Text → Option V
  retrying send zero n text = none
  retrying send (suc left) n text = elim (send n text) [
    | embedded v ↦ some v
    | interrupted ↦ retrying send left (suc n) text
    | rejected ↦ none
  ]

  unfoldable pub embed : Bool → (ℕ → Text → Attempt V) → Text → Option V
  unfolding retrying strip
  embed is_enabled send text =
      if not is_enabled
      then none
      else if is_empty (strip text)
      then none
      else retrying send 2 0 (take 8000 (strip text))

  -- `[None] * n`
  unfoldable pub nones : ℕ → List (Option V)
  nones zero = []
  nones (suc n) = none ∷ nones n

  -- `out[i] = v`
  unfoldable pub set : ℕ → Option V → List (Option V) → List (Option V)
  set i v [] = []
  set zero v (x ∷ out) = v ∷ out
  set (suc i) v (x ∷ out) = x ∷ set i v out

  -- The loop over `zip(resp.data, non_empty_idx, strict=True)`; `none` is the ValueError of `zip`.
  unfoldable pub assign : List V → List ℕ → List (Option V) → Option (List (Option V))
  unfolding set
  assign [] [] out = some out
  assign (v ∷ data_) (i ∷ idx) out = assign data_ idx (set i (some v) out)
  assign _ _ out = none

  abbrev pub answered_batch : Option (List V) → List ℕ → ℕ → Option (List (Option V))
  answered_batch none idx n = none
  answered_batch (some data_) idx n = assign data_ idx (nones n)

  abbrev pub or_nones : ℕ → Option (List (Option V)) → List (Option V)
  or_nones n none = nones n
  or_nones n (some out) = out

  -- `send` is the one request, `none` if it fails.
  unfoldable pub embed_batch : Bool → (List Text → Option (List V)) → List Text → List (Option V)
  unfolding nones non_empty_idx at assign strip
  embed_batch is_enabled send texts =
      let n = length texts in
      let cleaned = map (λ t. take 8000 (strip t)) texts in
      let idx = non_empty_idx 0 cleaned in
      if is_empty texts
      then []
      else if not is_enabled
      then nones n
      else if is_empty idx
      then nones n
      else or_nones n (answered_batch (send (map (at cleaned) idx)) idx n)
