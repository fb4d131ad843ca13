-- ===== src/Tokens/Laws.antt =====
-- What trimming guarantees.
use higgsfield_memory_servic.Prelude.{
  ℕ, ◌*◌, ◌≤◌, ◌<◌, ◌≡◌, ◌↔◌, refl, subst, ◌⊎◌, inl, inr, true, false, Bool-cases, if◌then◌else◌,
  leb, none, [], ◌∷◌, arith, length, take, length-take-le, take_all,
}
use higgsfield_memory_servic.Text.{Text}
use higgsfield_memory_servic.Tokens.{approx_token_count, trim_to_tokens}

-- Without a tokenizer: a trimmed text counts at most the tokens that were asked for, for a positive
-- limit.
pub count-trim_to_tokens :
    (text : Text) (n : ℕ) → 0 < n → approx_token_count none (trim_to_tokens none text n) ≤ n
unfolding approx_token_count trim_to_tokens
count-trim_to_tokens text n pos = ground (arith, length-take-le (n * 4) text)

-- Without a tokenizer: a text is left as it is exactly if it has at most four characters for each
-- token that was asked for.
pub trim_to_tokens_iff :
    (text : Text) (n : ℕ) → (trim_to_tokens none text n ≡ text) ↔ (length text ≤ n * 4)
unfolding trim_to_tokens
trim_to_tokens_iff text n = (
  λ same. subst (λ t. length t ≤ n * 4) same (ground (arith, length-take-le (n * 4) text)),
  λ few. by_limit (Bool-cases (leb n 0)) text few,
)
  where
    by_limit :
        (leb n 0 ≡ true) ⊎ (leb n 0 ≡ false)
        → (t : Text) → length t ≤ n * 4
        → (if leb n 0 then [] else take (n * 4) t) ≡ t
    by_limit (inl zero_limit) [] few = rw zero_limit refl
    by_limit (inl zero_limit) (c ∷ t) few = absurd (ground (arith, zero_limit, few))
    by_limit (inr positive) t few = rw positive (take_all (n * 4) t few)
