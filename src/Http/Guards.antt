-- ===== src/Http/Guards.antt =====
-- What passes the middleware.
use higgsfield_memory_servic.Prelude.{
  ℕ, ◌≤◌, Bool, true, false, not, ◌≡◌, refl, Option, none, some, List, [], ◌∷◌, ◌++◌, arith, ltb,
  if◌then◌else◌, sym, subst, ap, ◌∙◌, append-nil, append_assoc, length, length-append, Bool-cases,
  inl, inr,
}
use higgsfield_memory_servic.Text.{Text}
use higgsfield_memory_servic.Http.{
  Chunk, Request, Reply, forward, invalid_content_length, payload_too_large, buffer, has_body,
  by_length, by_header, dispatch,
}

-- The body that the messages carry, up to the first that promises no more.
abbrev pub full_body : List Chunk → List ℕ
full_body [] = []
full_body (m ∷ rest) = let tail = full_body rest in if m.more_body then m.body ++ tail else m.body

-- The header does not parse.
abbrev pub is_malformed : (Text → Option ℕ) → Option Text → Bool
is_malformed parse none = false
is_malformed parse (some h) = elim (parse h) [ none ↦ true | some _ ↦ false ]

-- The length that the header declares; 0 without one.
abbrev pub declared : (Text → Option ℕ) → Option Text → ℕ
declared parse none = 0
declared parse (some h) = elim (parse h) [ none ↦ 0 | some n ↦ n ]

-- What becomes of a body: it is passed on whole, or refused.
abbrev pub by_size : ℕ → List ℕ → Reply
by_size max_bytes body =
    if ltb max_bytes (length body) then payload_too_large else forward (some body)

split :
    (b : Bool) (body x tail : List ℕ)
    → body ++ (if b then x ++ tail else x) ≡ (body ++ x) ++ (if b then tail else [])
split true body x tail = sym (append_assoc body x tail)
split false body x tail = sym (append-nil (body ++ x))

short :
    (max_bytes : ℕ) (body : List ℕ)
    → length body ≤ max_bytes
    → by_size max_bytes body ≡ forward (some body)
short max_bytes body h = ground arith

long :
    (max_bytes : ℕ) (body more : List ℕ)
    → ltb max_bytes (length body) ≡ true
    → by_size max_bytes (body ++ more) ≡ payload_too_large
long max_bytes body more h = ground (arith, length-append body more)

-- One message, by the two tests that the loop makes on it.
abbrev after_chunk : ℕ → List ℕ → Chunk → List Chunk → Bool → Bool → Reply
after_chunk max_bytes body m rest over more = elim over [
  | true ↦ payload_too_large
  | false ↦ elim more [
    | true ↦ buffer max_bytes (body ++ m.body) rest
    | false ↦ forward (some (body ++ m.body))
  ]
]

buffer_step :
    (max_bytes : ℕ) (body : List ℕ) (m : Chunk) (rest : List Chunk) (over more : Bool)
    → ltb max_bytes (length (body ++ m.body)) ≡ over
    → m.more_body ≡ more
    → buffer max_bytes body (m ∷ rest) ≡ after_chunk max_bytes body m rest over more
unfolding buffer
buffer_step max_bytes body m rest over more h g = λ i. after_chunk max_bytes body m rest (h i) (g i)

-- What is left after a message, if it promises more.
abbrev remaining : Bool → List Chunk → List ℕ
remaining more rest = if more then full_body rest else []

full_body_step :
    (body : List ℕ) (m : Chunk) (rest : List Chunk) (more : Bool)
    → m.more_body ≡ more
    → (body ++ m.body) ++ remaining more rest ≡ body ++ full_body (m ∷ rest)
full_body_step body m rest more h =
    sym (split more body m.body (full_body rest))
    ∙ ap (λ b. body ++ (if b then m.body ++ full_body rest else m.body)) (sym h)

fits_le :
    (max_bytes : ℕ) (body : List ℕ) → ltb max_bytes (length body) ≡ false → length body ≤ max_bytes
fits_le max_bytes body h = ground arith

buffer-by_size :
    (max_bytes : ℕ) (body : List ℕ) (chunks : List Chunk)
    → length body ≤ max_bytes
    → buffer max_bytes body chunks ≡ by_size max_bytes (body ++ full_body chunks)
buffer-by_size max_bytes body [] h =
    unfold buffer in
    ap (λ b. forward (some b)) (sym (append-nil body))
    ∙ sym
        (short max_bytes (body ++ []) (subst (λ b. length b ≤ max_bytes) (sym (append-nil body)) h))
buffer-by_size max_bytes body (m ∷ rest) h =
    elim (Bool-cases (ltb max_bytes (length (body ++ m.body)))) [
      | inl over ↦
          buffer_step max_bytes body m rest true m.more_body over refl
          ∙ sym (long max_bytes (body ++ m.body) (remaining m.more_body rest) over)
          ∙ ap (by_size max_bytes) (full_body_step body m rest m.more_body refl)
      | inr fits ↦ elim (Bool-cases m.more_body) [
        | inl more ↦
            buffer_step max_bytes body m rest false true fits more
            ∙ buffer-by_size max_bytes (body ++ m.body) rest
                (fits_le max_bytes (body ++ m.body) fits)
            ∙ ap (by_size max_bytes) (full_body_step body m rest true more)
        | inr last ↦
            buffer_step max_bytes body m rest false false fits last
            ∙ sym (short max_bytes (body ++ m.body) (fits_le max_bytes (body ++ m.body) fits))
            ∙ ap (by_size max_bytes)
                (sym (append-nil (body ++ m.body)) ∙ full_body_step body m rest false last)
      ]
    ]

-- For every limit and every request, whatever its header and however its body is cut into messages:
-- a request without a body method goes on unread; else a header that does not parse is refused as
-- such, a declared or an actual length over the limit is refused as too large, and otherwise the
-- whole body goes on as it was sent.
pub dispatch_lem :
    (parse : Text → Option ℕ) (max_bytes : ℕ) (request : Request)
    → dispatch parse max_bytes request ≡ (
        if not (has_body request.method)
        then forward none
        else if is_malformed parse request.content_length
        then invalid_content_length
        else if ltb max_bytes (declared parse request.content_length)
        then payload_too_large
        else by_size max_bytes (full_body request.chunks))
unfolding dispatch
dispatch_lem parse max_bytes request =
    ap (λ o. if not (has_body request.method) then forward none else o)
      (by_case request.content_length)
  where
    buffered : buffer max_bytes [] request.chunks ≡ by_size max_bytes (full_body request.chunks)
    buffered = buffer-by_size max_bytes [] request.chunks (omega arith)

    by_parsed :
        (n : Option ℕ)
        → by_length max_bytes n request.chunks ≡ (
            if (elim n [ none ↦ true | some _ ↦ false ])
            then invalid_content_length
            else if ltb max_bytes (elim n [ none ↦ 0 | some n ↦ n ])
            then payload_too_large
            else by_size max_bytes (full_body request.chunks))
    by_parsed none = refl
    by_parsed (some n) = ap (λ o. if ltb max_bytes n then payload_too_large else o) buffered

    by_case :
        (h : Option Text)
        → by_header parse max_bytes h request.chunks ≡ (
            if is_malformed parse h
            then invalid_content_length
            else if ltb max_bytes (declared parse h)
            then payload_too_large
            else by_size max_bytes (full_body request.chunks))
    by_case none = buffered ∙ not_over
      where
        not_over : by_size max_bytes (full_body request.chunks) ≡ (
            if ltb max_bytes 0
            then payload_too_large
            else by_size max_bytes (full_body request.chunks))
        not_over = ground arith
    by_case (some h) = by_parsed (parse h)
