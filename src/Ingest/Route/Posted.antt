-- ===== src/Ingest/Route/Posted.antt =====
-- What a request to POST /turns does to the tables.
use higgsfield_memory_servic.Prelude.{
  Bool, true, false, ◌&&◌, not, ◌≡◌, refl, ap, sym, ◌∙◌, Option, none, some, List, [], ◌∷◌, ◌++◌,
  map, subst, if◌then◌else◌, length, length-map, arith,
}
use higgsfield_memory_servic.Text.{Text, is_empty, strip}
use higgsfield_memory_servic.Numbers.{Floats, IsOrdered}
use higgsfield_memory_servic.Datetime.{Datetime}
use higgsfield_memory_servic.Json.{Outcome, ok, Python}
use higgsfield_memory_servic.Models.{MemoryCandidate}
use higgsfield_memory_servic.Embedding.{embed_batch, nones}
use higgsfield_memory_servic.Embedding.Aligned.{length-nones}
use higgsfield_memory_servic.Embedding.Batch.{embed_batch-eq-batch}
use higgsfield_memory_servic.Extraction.LlmExtractor.{build_user_prompt}
use higgsfield_memory_servic.Extraction.LlmExtractor.Wellformed.{breaks}
use higgsfield_memory_servic.Extraction.Service.{extract, Served, extract-Served}
use higgsfield_memory_servic.Store.{Memory, Db}
use higgsfield_memory_servic.Store.Sound.{IsSound}
use higgsfield_memory_servic.TurnRepo.{TurnIn, flatten_messages}
use higgsfield_memory_servic.MemoryRepo.{Scan}
use higgsfield_memory_servic.Ingest.{ingest_turn}
use higgsfield_memory_servic.Ingest.Transaction.{ingest_turn-IsSound}
use higgsfield_memory_servic.Ingest.Turns.{turn_row, ingest_turn-turns}
use higgsfield_memory_servic.Ingest.Route.{
  Clients, zip_strict, memory_vecs, turn_embedding, stored, with_candidates, post_turn,
}

-- Lists of one length are zipped, and no element of either is lost.
zip_strict-some :
    {A B : Type 0} (xs : List A) (ys : List B)
    → length xs ≡ length ys
    → (zs : List (A × B)) × (zip_strict xs ys ≡ some zs)
      × (map (λ z. z.0) zs ≡ xs)
      × (map (λ z. z.1) zs ≡ ys)
unfolding zip_strict
zip_strict-some [] [] e = ([], refl, refl, refl)
zip_strict-some [] (y ∷ ys) e = absurd (omega (arith, e))
zip_strict-some (x ∷ xs) [] e = absurd (omega (arith, e))
zip_strict-some (x ∷ xs) (y ∷ ys) e =
    let (zs, done, firsts, seconds) = zip_strict-some xs ys (omega (arith, e)) in
    ((x, y) ∷ zs, rw done refl, ap (λ l. x ∷ l) firsts, ap (λ l. y ∷ l) seconds)

module _ {F : Type 0} (fl : Floats F) (order : IsOrdered fl)
    (zero_le_one : fl.lt (fl.decimal 1 0) fl.zero_f ≡ false) (py : Python F)
    (clients : Clients F) where
  length-memory_vecs :
      (candidates : List (MemoryCandidate F))
      → length candidates ≡ length (memory_vecs fl py clients candidates)
  length-memory_vecs candidates = by_test (not (is_empty candidates) && clients.llm_enabled)
    where
      by_test :
          (b : Bool)
          → length candidates
            ≡ length (
                if b
                then embed_batch clients.llm_enabled clients.embed_many
                    (map (λ c. c.value) candidates)
                else nones (length candidates))
      by_test true = sym (
          (embed_batch-eq-batch clients.llm_enabled clients.embed_many
            (map (λ c. c.value) candidates)).1
          ∙ length-map candidates (λ c. c.value))
      by_test false = sym (length-nones (List F) (length candidates))

  module _ (sc : Scan (Memory F)) (now : Datetime) (payload : TurnIn F) (db : Db F)
      (sound : IsSound db) where
    -- Whether the answer of the model is one that the request does not survive.
    abbrev pub fails : Bool
    fails =
        not (is_empty (strip (flatten_messages payload.messages)))
        && (clients.llm_enabled
            && breaks fl (clients.chat (build_user_prompt (flatten_messages payload.messages))))

    abbrev pub text : Text
    text = flatten_messages payload.messages

    abbrev pub extracted : Outcome (List (MemoryCandidate F))
    extracted = extract fl py clients.llm_enabled clients.chat text

    -- The tables after the transaction, unless Postgres refuses it.
    abbrev pub Committed :
        Bool → List (MemoryCandidate F × Option (List F)) → Option (Db F) → Type 0
    Committed true pairs result = result ≡ none
    Committed false pairs result =
        let embedding = turn_embedding fl py clients payload in
        (next : Db F) × (result ≡ some next)
        × (next ≡ ingest_turn fl sc now payload embedding pairs db)
        × (next.turns ≡ db.turns ++ (turn_row fl db.supply payload embedding ∷ []))
        × IsSound next

    -- What is written: the candidates that were extracted, each with its own embedding.
    pub record IsPosted (result : Option (Db F)) : Type 0 where
      pub pairs : List (MemoryCandidate F × Option (List F))
      pub candidates : extracted ≡ ok (map (λ z. z.0) pairs)
      pub embeddings : map (λ z. z.1) pairs ≡ memory_vecs fl py clients (map (λ z. z.0) pairs)
      pub commit :
          Committed (clients.refuses (turn_embedding fl py clients payload) pairs db) pairs result

    abbrev pub Posted : Bool → Option (Db F) → Type 0
    Posted true result = result ≡ none
    Posted false result = IsPosted result

    committed_lem :
        (pairs : List (MemoryCandidate F × Option (List F))) (refused : Bool)
        → Committed refused pairs (
            if refused
            then none
            else some
                (ingest_turn fl sc now payload (turn_embedding fl py clients payload) pairs db))
    committed_lem pairs true = refl
    committed_lem pairs false =
        let embedding = turn_embedding fl py clients payload in
        (
          ingest_turn fl sc now payload embedding pairs db,
          refl,
          refl,
          ingest_turn-turns fl sc now payload embedding pairs db,
          ingest_turn-IsSound fl sc now payload embedding pairs db sound,
        )

    stored-Posted :
        (found : List (MemoryCandidate F))
        → extracted ≡ ok found
        → Posted false (with_candidates fl py clients sc now payload db extracted)
    stored-Posted found e =
        let (pairs, done, firsts, seconds) =
          zip_strict-some found (memory_vecs fl py clients found) (length-memory_vecs found) in
        record {
          pairs = pairs;
          candidates = e ∙ ap ok (sym firsts);
          embeddings = seconds ∙ ap (memory_vecs fl py clients) (sym firsts);
          commit =
              subst
                (Committed (clients.refuses (turn_embedding fl py clients payload) pairs db) pairs)
                (sym (
                  ap (with_candidates fl py clients sc now payload db) e
                  ∙ ap (stored fl py clients sc now payload db) done))
                (committed_lem pairs
                  (clients.refuses (turn_embedding fl py clients payload) pairs db));
        }

    candidates-Posted :
        (blank enabled breaking : Bool)
        → Served fl order zero_le_one py clients.llm_enabled clients.chat text blank enabled
            (enabled && breaking)
            extracted
        → Posted
            (not blank && (enabled && breaking))
            (with_candidates fl py clients sc now payload db extracted)
    candidates-Posted true enabled breaking h = stored-Posted [] h
    candidates-Posted false false breaking h = stored-Posted _ h
    candidates-Posted false true true h = ap (with_candidates fl py clients sc now payload db) h
    candidates-Posted false true false h = stored-Posted _ h.served

    -- Over tables that are sound, and for numbers that are ordered, with no NaN among them and 1
    -- not below 0: whatever the endpoints answer and whichever of their requests fail, the tables
    -- are afterwards those of the transaction on the turn, its embedding, and the candidates that
    -- the service extracts, each with its embedding: the turn is stored after the turns of before,
    -- and the tables are sound again. Nothing is written if the answer of the model is one that the
    -- extractor does not survive, or if Postgres refuses the transaction.
    pub post_turn-Posted : Posted fails (post_turn fl py clients sc now payload db)
    unfolding post_turn
    post_turn-Posted =
        candidates-Posted (is_empty (strip text)) clients.llm_enabled
          (breaks fl (clients.chat (build_user_prompt text)))
          (extract-Served fl order zero_le_one py clients.llm_enabled clients.chat text)
