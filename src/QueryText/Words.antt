-- ===== src/QueryText/Words.antt =====
-- What the words of a query are.
use higgsfield_memory_servic.Prelude.{
  ℕ, ◌≤◌, ◌<◌, Bool, false, ◌||◌, ◌≡◌, refl, List, [], ◌∷◌, ◌++◌, arith, ◌==◌, nat_eq, list_eq, leb,
  ltb, length, length-append, contains, All, All-append, Bool-cases, inl, inr,
}
use higgsfield_memory_servic.Text.{Text, lower}
use higgsfield_memory_servic.Text.Laws.{lower_idem}
use higgsfield_memory_servic.QueryText.{stop, skips, collect_words, scan_words, query_tokens}

-- No word twice.
abbrev pub NodupWords : List Text → Type 0
NodupWords [] = Unit
NodupWords (t ∷ ts) = (contains ts t ≡ false) × NodupWords ts

contains-append :
    (t u : Text) (ts : List Text) → contains (ts ++ t ∷ []) u ≡ (contains ts u || u == t)
contains-append t u [] = ground arith
contains-append t u (x ∷ ts) = ground (arith, contains-append t u ts)

NodupWords-append :
    (t : Text) (ts : List Text) → NodupWords ts → contains ts t ≡ false → NodupWords (ts ++ t ∷ [])
NodupWords-append t [] u h = (refl, tt)
NodupWords-append t (x ∷ ts) (fresh, u) h =
    (ground (arith, contains-append t x ts, fresh, h), NodupWords-append t ts u (ground (arith, h)))

-- A word that is in lower case, long enough and no stop word.
pub record IsContent (min_len : ℕ) (t : Text) : Type 0 where
  pub lowered : lower t ≡ t
  pub long : min_len ≤ length t
  pub meaningful : contains stop t ≡ false

pub record IsWords (min_len max_tokens : ℕ) (ts : List Text) : Type 0 where
  pub content : All (IsContent min_len) ts
  pub nodup : NodupWords ts
  pub few : length ts ≤ max_tokens

module _ (min_len max_tokens : ℕ) where
  append-IsWords :
      (t : Text) (ts : List Text)
      → IsWords min_len max_tokens ts
      → length ts < max_tokens
      → skips min_len ts (lower t) ≡ false
      → IsWords min_len max_tokens (ts ++ lower t ∷ [])
  append-IsWords t ts w room h =
      let (long, meaningful, fresh) =
        tests (ltb (length (lower t)) min_len) (contains stop (lower t)) (contains ts (lower t))
          h in
      record {
        content = All-append (IsContent min_len) ts _ w.content (
          record {
            lowered = lower_idem t;
            long = not_short (length (lower t)) min_len long;
            meaningful = meaningful;
          },
          tt,
        );
        nodup = NodupWords-append (lower t) ts w.nodup fresh;
        few = omega (arith, length-append ts (lower t ∷ []));
      }
    where
      tests : (a b c : Bool) → (a || b || c) ≡ false → (a ≡ false) × (b ≡ false) × (c ≡ false)
      tests a b c h = ground arith

      not_short : (n m : ℕ) → ltb n m ≡ false → m ≤ n
      not_short n m h = ground arith

  collect_words-IsWords :
      (out ws : List Text)
      → IsWords min_len max_tokens out
      → length out < max_tokens
      → IsWords min_len max_tokens (collect_words min_len max_tokens out ws)
  unfolding collect_words
  collect_words-IsWords out [] w room = w
  collect_words-IsWords out (x ∷ ws) w room = elim (Bool-cases (skips min_len out (lower x))) [
    | inl skipped ↦ rw (skipped, collect_words) (collect_words-IsWords out ws w room)
    | inr taken ↦
        let more = append-IsWords x out w room taken in
        elim (Bool-cases (leb max_tokens (length (out ++ lower x ∷ [])))) [
          | inl full ↦ rw (taken, full, collect_words) more
          | inr space ↦
              rw (taken, space, collect_words)
                (collect_words-IsWords (out ++ lower x ∷ []) ws more (ground (arith, space)))
        ]
  ]

-- For every query and a positive limit: the words are in lower case, of the given length at least,
-- no stop words, none twice, and no more than the limit.
pub query_tokens-IsWords :
    (query : Text) (min_len max_tokens : ℕ)
    → 0 < max_tokens
    → IsWords min_len max_tokens (query_tokens query min_len max_tokens)
unfolding query_tokens
query_tokens-IsWords query min_len max_tokens pos =
    collect_words-IsWords min_len max_tokens [] (scan_words [] query)
      record { content = tt; nodup = tt; few = omega arith } pos
