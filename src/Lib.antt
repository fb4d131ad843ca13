-- ===== src/Lib.antt =====
-- A memory service for chat agents: what it stores of a conversation, how new facts replace old
-- ones, and what it recalls under a token budget. The code is Python over Postgres, under
-- src/memory_service/.
--
-- The parts, and how they interact. POST /turns (api/routes_turns.py) stores a turn and, for each
-- candidate that an extractor found in it, asks the reconciler (services/reconciler.py) what to do
-- with the rows of the candidate's scope and key; the repositories (repo/turn_repo.py,
-- repo/memory_repo.py) write the rows, entities, mentions and edges. The predicates and their
-- multiplicities come from extraction/taxonomy.py. POST /recall fuses ranked hits
-- (services/fusion.py), decides from signals which tiers may be shown, and assembles the context
-- with its citations (services/assembler.py) by the token counts of util/tokens.py; POST /search
-- (services/search.py) fuses hits too. The two deletions (api/routes_admin.py) remove rows and
-- elect the active rows anew.
--
-- The files:
--   Prelude, Prelude/*   names of the library, Boolean tests, list functions over the native ℕ
--   Text, Numbers, Datetime, Dict, Sorting, Regex   Python's str, float, datetime, dict,
--                        list.sort and re, as far as the service uses them
--   Tokens, Tokens/*     util/tokens.py
--   Json                 what json.loads returns, and chat_json of llm/client.py
--   Candidate            `Candidate` of services/retrievers.py
--   Fusion, Fusion/*     services/fusion.py: SOURCE_WEIGHTS, rrf_fuse, group_by_source
--   Models, Taxonomy, Taxonomy/*   extraction/models.py and extraction/taxonomy.py
--   Gate, Gate/*         decide_gate of services/assembler.py, the signal tests of
--                        services/recall.py
--   Format               the lines and citations of services/assembler.py
--   Assembler, Assembler/*   TierBudget and assemble of services/assembler.py
--   Store, Store/*       the tables of db/migrations/001_init.sql, and what makes them sound
--   TurnRepo, MemoryRepo, MemoryRepo/*   repo/: the statements that write, and the reads of the
--                        memories (MemoryRepo/Queries)
--   Retrievers, Retrievers/*   services/retrievers.py
--   Embedding, Embedding/*   embedding/client.py
--   Extraction, Extraction/*   extraction/: LlmExtractor, RuleExtractor, Service
--   QueryAnalyzer, QueryAnalyzer/*   services/query_analyzer.py
--   Reconciler, Reconciler/*   services/reconciler.py
--   Ingest, Ingest/*     the transaction of api/routes_turns.py, and the route as a whole
--                        (Ingest/Route)
--   Admin, Admin/*       the deletions of api/routes_admin.py
--   QueryText, QueryText/*   util/text.py
--   Search, Search/*     services/search.py
--   Recall, Recall/*     services/recall.py; Recall/Database has the reads over the tables,
--                        Recall/Route the recall with the analysis of its query
--   Service, Service/*   sequences of requests that write
--   Http, Http/*         api/middleware.py and require_auth of api/deps.py
--   Tests, Tests/*       the theorems at concrete inputs
--
-- How the code is modelled. State is passed explicitly: a table is a list of rows, the database a
-- record of tables (`Db`), a statement a function on it, and a transaction the composition of its
-- statements; the advisory lock and the isolation of transactions are Postgres's and have no part in
-- it. The order in which Postgres returns equal rows is a parameter (`Scan`: any rearrangement).
-- Identifiers are numbers; a fresh UUID is the next one of the supply, hence one that no row has;
-- a UUID and its string are the same. Whether Postgres refuses the transaction of POST /turns (a NUL
-- character, a vector of another dimension, a violated constraint) is a parameter of the route
-- (`refuses`): all of it is rolled back. The statements themselves are modelled as they run when they
-- are not refused. `key` is computed where it is read; `tsv` and `ingested_at`, which the modelled code does not read, are
-- left out. A float is a value of a type with the operations of `Floats`; what is proved of it needs
-- an order without NaN at most (`IsOrdered`). What a column loses of a number is one of these
-- operations: an embedding is written with six decimals (`vector_element`), a confidence and a weight
-- are REAL (`real`). A scan of an HNSW index is approximate: which rows it meets is a parameter, and
-- it may miss any (`Index`). The shares of the budget, 0.4 each, are tenths. A str
-- is the list of its code points; `lower`, `isspace` and \w know ASCII, Latin-1, Greek and Cyrillic.
-- tiktoken is a parameter (`Option Encoding`, where `none` stands for the fallback of four characters
-- a token); nothing is assumed of it, and the bounds on counts are for the fallback.
-- The transaction takes embeddings and candidates as arguments, as it does in the code, and so do
-- recall and search with what they read; the route and the reads over the tables give them. The
-- endpoints of the models, json.loads, `str` of a value that is no string and `float` of a string are
-- parameters, and so are the distances of pgvector and the matches and ranks of the text search
-- (`Ranking`). A KeyError is `none`; an exception that is caught where it is raised and one that is not
-- are told apart (`Outcome`).
--
-- Bounds and fuel. Loops are recursions on the lists that they read. Fuel is used twice: by a
-- repetition in a regular expression, the length of the text that is left, enough since every round
-- that counts takes a character; and by the loop that drops trailing connectors, the length of the
-- text, which is proved to be enough. The two attempts of a request are a bound of the code.
--
-- Not modelled: the reads of the turns, the validation of requests by pydantic, the routes that only
-- call a service, settings, logging and start-up: input and output, or code of other libraries.
pub mod Prelude
pub mod Text
pub mod Numbers
pub mod Tokens
pub mod Datetime
pub mod Candidate
pub mod Dict
pub mod Sorting
pub mod Json
pub mod Fusion
pub mod Models
pub mod Regex
pub mod Taxonomy
pub mod Store
pub mod TurnRepo
pub mod MemoryRepo
pub mod Reconciler
pub mod Ingest
pub mod Admin
pub mod Gate
pub mod Format
pub mod Assembler
pub mod QueryText
pub mod Search
pub mod Retrievers
pub mod Recall
pub mod Embedding
pub mod QueryAnalyzer
pub mod Extraction
pub mod Service
pub mod Http
pub mod Tests
