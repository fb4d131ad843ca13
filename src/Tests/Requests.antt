-- ===== src/Tests/Requests.antt =====
-- The middleware at a concrete request.
use higgsfield_memory_servic.Prelude.{
  Option, ltb, ◌-◌, ℕ, true, false, not, ◌≡◌, none, some, [], ◌∷◌, nat_eq, string_eq, pair_eq,
  list_eq, option_eq, if◌then◌else◌,
}
use higgsfield_memory_servic.Text.{Text, codes}
use higgsfield_memory_servic.Store.{scope_eq}
use higgsfield_memory_servic.Http.{
  Request, forward, invalid_content_length, payload_too_large, has_body, dispatch,
}
use higgsfield_memory_servic.Http.Guards.{full_body, is_malformed, declared, by_size, dispatch_lem}

-- A body of five bytes in two messages.
abbrev posted : Request
posted = record {
  method = "POST";
  content_length = some (codes "5");
  chunks =
      record { body = 1 ∷ 2 ∷ []; more_body = true }
      ∷ record { body = 3 ∷ 4 ∷ 5 ∷ []; more_body = false }
      ∷ [];
}

-- The lengths of one digit.
abbrev one_digit : Text → Option ℕ
one_digit (c ∷ []) = some (c - 48)
one_digit _ = none

dispatch_lem_example : dispatch one_digit 4 posted ≡ (
    if not (has_body "POST")
    then forward none
    else if is_malformed one_digit (some (codes "5"))
    then invalid_content_length
    else if ltb 4 (declared one_digit (some (codes "5")))
    then payload_too_large
    else by_size 4 (full_body posted.chunks))
dispatch_lem_example = dispatch_lem one_digit 4 posted
