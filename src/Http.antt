-- ===== src/Http.antt =====
-- src/memory_service/api/middleware.py and `require_auth` of src/memory_service/api/deps.py. Python's
-- `int` on a header is the parameter `parse`: `none` for a ValueError, and 0 stands for the negative
-- numbers, which no limit is below.
pub mod Guards
use higgsfield_memory_servic.Prelude.{
  ℕ, ◌+◌, Bool, true, false, not, ◌||◌, Option, none, some, List, [], ◌∷◌, ◌++◌, ◌==◌, nat_eq,
  list_eq, string_eq, String, ltb, if◌then◌else◌, length, contains,
}
use higgsfield_memory_servic.Text.{Text, codes, is_empty, lower}

-- A message of `request.receive()`; `more_body` is false if it is missing.
pub record Chunk : Type 0 where
  pub body : List ℕ
  pub more_body : Bool

pub record Request : Type 0 where
  pub method : String
  pub content_length : Option Text
  pub chunks : List Chunk

-- The answers of the middleware; `forward` calls the next handler, with the body if it was read.
pub data Reply : Type 0 where
  forward : Option (List ℕ) → Reply
  invalid_content_length payload_too_large : Reply

-- The loop that buffers the body. A request whose messages end while more is promised does not
-- arrive: it is taken to end there.
unfoldable pub buffer : ℕ → List ℕ → List Chunk → Reply
buffer max_bytes body [] = forward (some body)
buffer max_bytes body (message ∷ rest) =
    let longer = body ++ message.body in
    elim (ltb max_bytes (length longer)) [
      | true ↦ payload_too_large
      | false ↦ elim message.more_body [
        | true ↦ buffer max_bytes longer rest
        | false ↦ forward (some longer)
      ]
    ]

abbrev pub has_body : String → Bool
has_body method = contains ("POST" ∷ "PUT" ∷ "PATCH" ∷ []) method

abbrev pub by_length : ℕ → Option ℕ → List Chunk → Reply
by_length max_bytes none chunks = invalid_content_length
by_length max_bytes (some cl) chunks =
    if ltb max_bytes cl then payload_too_large else buffer max_bytes [] chunks

abbrev pub by_header : (Text → Option ℕ) → ℕ → Option Text → List Chunk → Reply
by_header parse max_bytes none chunks = buffer max_bytes [] chunks
by_header parse max_bytes (some cl_header) chunks = by_length max_bytes (parse cl_header) chunks

unfoldable pub dispatch : (Text → Option ℕ) → ℕ → Request → Reply
unfolding buffer string_eq
dispatch parse max_bytes request =
    if not (has_body request.method)
    then forward none
    else by_header parse max_bytes request.content_length request.chunks

pub record Credentials : Type 0 where
  pub scheme : Text
  pub credentials : Text

abbrev pub accepts : Text → Option Credentials → Bool
accepts expected none = false
accepts expected (some c) =
    not (not (lower c.scheme == codes "bearer") || not (c.credentials == expected))

-- False is the 401.
unfoldable pub require_auth : Text → Option Credentials → Bool
unfolding lower list_eq nat_eq
require_auth expected creds = if is_empty expected then true else accepts expected creds
