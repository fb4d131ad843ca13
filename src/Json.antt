-- ===== src/Json.antt =====
-- What `json.loads` returns, and what Python does with it: `bool`, `str`, `float`, `.get` and
-- iteration. The text that `str` gives to a value that is no string is a parameter (`Python`).
use mathlib.Core.Option.{get_or}
use higgsfield_memory_servic.Prelude.{
  Bool, true, false, ◌&&◌, not, Option, none, some, List, [], ◌∷◌, map, ◌==◌, nat_eq, list_eq,
  if◌then◌else◌,
}
use higgsfield_memory_servic.Text.{Text, is_empty}
use higgsfield_memory_servic.Numbers.{Floats}

-- `huge` is an integer that no float can hold. A dict has each key once.
mutual
  pub data Json (F : Type 0) : Type 0 where
    null : Json F
    bool : Bool → Json F
    num : F → Json F
    huge : Json F
    str : Text → Json F
    arr : Items F → Json F
    obj : Fields F → Json F

  pub data Items (F : Type 0) : Type 0 where
    nil : Items F
    cons : Json F → Items F → Items F

  pub data Fields (F : Type 0) : Type 0 where
    end : Fields F
    field : Text → Json F → Fields F → Fields F

-- What a statement does: it yields a value, it raises a TypeError or a ValueError, which the callers
-- catch, or it raises an error that they let through.
pub data Outcome (A : Type 0) : Type 0 where
  ok : A → Outcome A
  malformed raised : Outcome A

pub record Python (F : Type 0) : Type 0 where
  -- `str(x)`, for an x that is no string
  pub repr : Json F → Text
  -- `float(s)`, `none` for a ValueError
  pub parse_float : Text → Option F

module _ {F : Type 0} where
  abbrev pub items : Items F → List (Json F)
  items nil = []
  items (cons j js) = j ∷ items js

  abbrev names : Fields F → List (Json F)
  names end = []
  names (field k v fs) = str k ∷ names fs

  -- `d.get(k)`
  unfoldable pub get : Text → Fields F → Option (Json F)
  unfolding list_eq nat_eq
  get k end = none
  get k (field j v fs) = if k == j then some v else get k fs

  -- `for x in j`
  unfoldable pub elements : Json F → Outcome (List (Json F))
  elements (arr js) = ok (items js)
  elements (str t) = ok (map (λ c. str (c ∷ [])) t)
  elements (obj fs) = ok (names fs)
  elements _ = malformed

  -- `str(j)`
  abbrev pub text_of : Python F → Json F → Text
  text_of py (str t) = t
  text_of py j = py.repr j

  abbrev pub parsed : Option F → Outcome F
  parsed none = malformed
  parsed (some x) = ok x

  module _ (fl : Floats F) where
    -- `bool(j)`; a NaN is true.
    unfoldable pub truthy : Json F → Bool
    truthy null = false
    truthy (bool b) = b
    truthy (num x) = not (fl.le x fl.zero_f && fl.le fl.zero_f x)
    truthy huge = true
    truthy (str t) = not (is_empty t)
    truthy (arr nil) = false
    truthy (arr (cons _ _)) = true
    truthy (obj end) = false
    truthy (obj (field _ _ _)) = true

    -- `float(j)`; an integer that is too large is an OverflowError.
    unfoldable pub float_of : Python F → Json F → Outcome F
    float_of py (num x) = ok x
    float_of py (bool b) = ok (if b then fl.decimal 1 0 else fl.zero_f)
    float_of py (str t) = parsed (py.parse_float t)
    float_of py huge = raised
    float_of py _ = malformed

    -- `d.get(k, []) or []`
    abbrev pub get_list : Text → Fields F → Json F
    get_list k fs =
        let found = get_or (get k fs) (arr nil) in if truthy found then found else arr nil

-- `json.loads` and the chat endpoint come from outside.
-- src/memory_service/llm/client.py: what `chat_json` makes of a reply.
pub data Reply : Type 0 where
  content : Option Text → Reply
  timed_out failed : Reply

abbrev pub chat_json : {F : Type 0} → (Text → Option (Json F)) → Bool → Reply → Option (Json F)
chat_json loads false reply = none
chat_json loads true (content none) = none
chat_json loads true (content (some t)) = if is_empty t then none else loads t
chat_json loads true _ = none
