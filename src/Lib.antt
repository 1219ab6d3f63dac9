-- ===== src/Lib.antt =====
-- qpedia: a wiki that a language model writes from documents and that answers questions.
--
-- A document becomes a source. An ingest job takes it through the phases of the pipeline; in one of them
-- an agent, driven by a language model, proposes a bundle of page operations, the validator checks it
-- and the wiki's git repository commits it. Jobs wait in a Postgres table that workers drain. The
-- retriever answers questions from the pages that the caller's groups may read.
--
-- A user reaches the sources and folders through the HTTP handlers, which let him see those that his
-- groups may read. Deleting a source queues a remove job, which takes the source out of the wiki.
--
-- Text models Rust's strings as lists of code points, with lengths in bytes of UTF-8. Prelude has the
-- Boolean tests, lists and results that all modules share.
-- Core (crates/qpedia-core/src): access lists, jobs, source statuses, tenants and bundles.
-- Llm (crates/qpedia-llm/src/lib.rs): messages and tool calls.
-- PgStore.Slug (crates/qpedia-pg-store/src/slug.rs): slugs, folder paths and the probe for a free name.
--   Shape and Folder are about the form of slugs and paths, Probe about the names that are tried.
-- PgStore.FolderAcls (crates/qpedia-pg-store/src/folder_acls.rs): the lists of readers of folders. Names,
--   Chain, Longest and Closest lead from the text of a path to the closest folder with a list.
-- PgStore.Folders (crates/qpedia-pg-store/src/folders.rs): pinned folders and the count of what lies within
--   one, which Within puts in terms of names.
-- PgStore.Sources (crates/qpedia-pg-store/src/sources.rs): the rows of sources; Rows is about updates.
-- PgStore.Jobs (crates/qpedia-pg-store/src/jobs.rs): the job table, a list of rows with the next key. Each
--   query is one atomic function; `run` takes the table through any sequence of them, in which the
--   steps of several workers may interleave. Keys, Claims, Leases and Retries are the theorems.
-- PgStore.Workspaces (crates/qpedia-pg-store/src/workspaces.rs): members and invites. Domains has the domains that
--   workspaces claim; Held and Verified are about who owns one.
-- Store.WikiRepo (crates/qpedia-store/src/wikirepo.rs): `safe_join`, `read_page` and `commit_bundle` on a
--   tree of files. `Faults` says which writes and which git commands fail. SafeJoin, Checks, Replay and
--   Commit follow the steps of `commit_bundle`; Pages is `list_pages`.
-- Store.Blob (crates/qpedia-store/src/blob.rs): the files of a source.
-- Ingest.Tools and Ingest.Agent (crates/qpedia-ingest/src/agent.rs): the tools that stage operations, and
--   the turn loop. Staging and Budget are its invariants, Handover is about its bundle at
--   `commit_bundle`, and Findings about where the tools and the commit do not agree.
-- Ingest.Validator (crates/qpedia-ingest/src/validator.rs): the report on a bundle. Universe and Meaning are about its
--   errors, Links about the search for links.
-- Ingest.Pipeline (crates/qpedia-ingest/src/handlers): the statuses that an ingest job gives its source.
--   `PipelineEnv` says what each service answers in one job. Triple has conditions on success and on
--   failure, Progress and Ends are about the end of a job, Guarded about the wiki.
-- Ingest.Frontmatter and Ingest.Remove (crates/qpedia-ingest/src/handlers/remove.rs): the remove job. Quoting,
--   Lines, Stripped, Relined and RoundTrip are about the list of sources that is written into a page. Fated, Planned
--   and Settled are about the operations, Removed, Forgets, Errors and FullLog about a job's end, and Index
--   about index.md.
-- Ingest.Runner (crates/qpedia-ingest/src/runner.rs): one round of a worker's loop, which joins the job
--   table to the handlers.
-- Retriever (crates/qpedia-retriever/src/lib.rs): Access has the test on a page's groups, Links the wiki
--   links, Search the hits and their reranking, Gather the tool loop and Chat the answer.
-- Api.Auth (crates/qpedia-api/src/auth.rs), Api.Sources and Api.Folders (crates/qpedia-api/src/routes.rs): what
--   a user may read, and the handlers of sources and folders on the rows of the user's tenant. Hidden,
--   Replaced, Uploaded and Shared are about sources, Delete about folders.
-- PgStore.Sessions (crates/qpedia-pg-store/src/sessions.rs) and PgStore.OidcPending (oidc_pending.rs beside it):
--   the sessions of signed-in users and the sign-ins that wait for their provider. Api.Auth finds the user
--   of a request with them; History and SignedIn lead to a session's life, Once is about a pending sign-in.
-- Api.RateLimit (crates/qpedia-api/src/rate_limit.rs): the bucket of each tenant for chat messages; Buckets and Window
--   are about the messages within a stretch of time.
-- Lint (crates/qpedia-lint/src/lib.rs): the report on the wiki's pages. Links and Walked are about the walk over
--   them, Exact about the report.
--
-- Bounds and fuel: the probe has 1000 rounds of fuel, and its counter ends it before. The agent has 18
-- turns and the gather loop 6, as in the source. A job has one round more than phases are left, 5 at
-- most, and never runs out of them. The scans for links have the length of the text as fuel, since each
-- round takes a character at least.
--
-- Concurrency: each query of the job table is a step of its own, so that the steps of workers interleave. The
-- other calls with several statements, such as `remove_member` and `accept_invite`, are one step, as they are
-- when no other call overlaps them.
--
-- Not modelled: the HTTP handlers of workspaces, connectors and chat, the exchanges with identity
-- providers, the connectors, the providers of models, embeddings and document extraction, the search
-- index and the telemetry. Where the modelled code calls them they are parameters that
-- may answer anything, and whether a call fails is part of the environment. Times are natural numbers,
-- and a query's clock is an argument. Scores of the reranker are natural numbers, since they are only
-- compared. The rate limiter counts in parts of a token and in milliseconds, without the rounding of `f64`.
pub mod Prelude
pub mod Text
pub mod Core
pub mod Api
pub mod Llm
pub mod PgStore
pub mod Store
pub mod Ingest
pub mod Retriever
pub mod Lint
