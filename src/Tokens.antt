-- ===== src/Tokens.antt =====
-- src/memory_service/util/tokens.py. The tokenizer is tiktoken's, a parameter; `none` stands for a
-- tokenizer that could not be loaded.
pub mod Laws
use higgsfield_memory_servic.Prelude.{
  ℕ, ◌*◌, ◌/◌, max, Option, none, some, List, [], ◌∷◌, leb, if◌then◌else◌, length, take,
}
use higgsfield_memory_servic.Text.{Text}

pub record Encoding : Type 0 where
  pub encode : Text → List ℕ
  pub decode : List ℕ → Text

unfoldable pub approx_token_count : Option Encoding → Text → ℕ
approx_token_count (some enc) text = length (enc.encode text)
approx_token_count none text = max 1 (length text / 4)

trim_encoded : Option Encoding → Text → ℕ → Text
trim_encoded (some enc) text max_tokens =
    let tokens = enc.encode text in
    if leb (length tokens) max_tokens then text else enc.decode (take max_tokens tokens)
trim_encoded none text max_tokens = take (max_tokens * 4) text

unfoldable pub trim_to_tokens : Option Encoding → Text → ℕ → Text
unfolding trim_encoded
trim_to_tokens enc text max_tokens =
    if leb max_tokens 0 then [] else trim_encoded enc text max_tokens
