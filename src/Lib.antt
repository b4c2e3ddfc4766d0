-- ===== src/Lib.antt =====
-- PipelineGPT's backend (backend/app): a service that answers questions about pipeline integrity from
-- ingested documents, holds risky answers for review by an engineer, and keeps accounts, rate limits
-- and an audit trail.
--
-- How the parts work together. A route first identifies its caller (Access); sign-in (Login) makes the
-- tokens after the rate limits (RateLimit) and a second factor; accounts come from invitations
-- (Invites). A question (Chat) is answered by the models, classified (Hitl), and either streamed or
-- held; a held answer waits for a decision (Review), and the history (Chat/History) shows the asker
-- what may be seen. An upload (Documents) or an import of a folder (BulkImport) stages a file and queues
-- a task; the worker (Worker) reads the file (Loaders, Chunker) and stores its chunks.
--
-- Files and the code that they model:
--   Config.antt        backend/app/config.py: the settings and their guards
--   Models.antt        backend/app/models/db.py: the rows of the tables
--   Access.antt        backend/app/middleware/auth.py: tokens and the checks of a route
--   Redis.antt         the commands of Redis that the service sends, with their documented laws
--   RateLimit.antt     backend/app/middleware/rate_limit.py: lockouts, used codes, token budget
--   Accounts.antt      the tables of the accounts, and backend/app/services/audit_log.py
--   Login.antt         backend/app/routers/auth.py: login; Login/Enroll.antt: mfa_setup, mfa_verify
--   Invites.antt       backend/app/routers/admin.py, and accept_invite of routers/auth.py
--   Hitl.antt          backend/app/services/hitl.py: risk, queueing and decisions
--   Review.antt        backend/app/routers/review.py: submit_decision
--   Chat.antt          backend/app/routers/query.py: the event stream; Chat/Boundary.antt its services,
--                      Chat/Allowed.antt what it may show, Chat/Replay.antt the pieces of an
--                      answer, Chat/History.antt the history
--   FileTypes.antt     backend/app/ingest/file_types.py and tags.py: names, kinds and tags of files
--   Documents.antt     backend/app/routers/ingest.py: upload, tags and deletion of documents, with the
--                      staging directory of backend/app/services/upload_store.py;
--                      Documents/Listing.antt the pages of the knowledge base
--   BulkImport.antt    backend/app/services/bulk_import.py: the import of a folder
--   Chunker.antt       backend/app/ingest/chunker.py: the windows of words of a text
--   Loaders.antt       backend/app/ingest: Loaders/Csv.antt csv_loader.py, Loaders/Pdf.antt pdf_loader.py,
--                      Loaders/PhmsaRows.antt and Loaders/Phmsa.antt phmsa_loader.py, and
--                      Loaders/Parse.antt the choice of the loader
--   Worker.antt        backend/app/tasks/celery_app.py: the task that ingests a document
--   Insights.antt      backend/app/services/insights_refresh.py: Insights/Refresh.antt its operations
--   Retrieval.antt     backend/app/services/retriever.py: the search, the fusion and the reranking
--   SemanticCache.antt backend/app/services/semantic_cache.py: the answers that are used again
--   Citing.antt        backend/app/services/llm.py: the context, the confidence and the citations
--   Trail.antt         backend/app/routers/audit.py: who reads which events
--   Exec.antt          handlers that read and write a state and may raise
--   Prelude.antt       shared names, lists and tests
--   Tests.antt         runs at concrete inputs
--
-- Handlers are functions from a state to an outcome and a state: what was written before an
-- exception stays written, as the commits of the source do; a commit itself does not fail. Uuids and
-- times are numbers, scores and their thresholds are exact fractions, and the dictionaries of the
-- audit payloads are lists. New rows stand first in their table. The clock and the random ids are
-- part of a request. Loops are recursion on their list; the pieces of an answer use the length of
-- the text as fuel, and each piece takes at least one character; the windows of a text use the
-- number of its words and one, and each window starts later than the last; the blocks of a table and
-- the batches of embeddings use the number of elements; a task of the worker is called four times at
-- most; a refresh takes a call of its task for each 25 documents and two more. A batch takes one
-- time for all of its commands to Redis.
--
-- bcrypt, pyotp and jose (Access.Crypto), Redis (Redis.Redis, Insights.RunStore and
-- SemanticCache.CacheStore), Python's regular expressions
-- (Hitl.Patterns and Citing.Patterns), and the models, the search and the stores behind a question
-- (Chat.Boundary.Services), hashing, the queue and the cache of the uploads (Documents.Uploads), the
-- readers of file formats (Loaders.Readers) and the services of the worker (Worker.Services) are
-- parameters. Not modelled: the asynchronous scheduling of requests, the
-- HTTP layer, the database engine, the embedder, the command line tools and the migrations.
pub mod Prelude
pub mod Exec
pub mod Access
pub mod Accounts
pub mod BulkImport
pub mod Chat
pub mod Chunker
pub mod Citing
pub mod Config
pub mod Documents
pub mod FileTypes
pub mod Hitl
pub mod Insights
pub mod Invites
pub mod Loaders
pub mod Login
pub mod Models
pub mod RateLimit
pub mod Redis
pub mod Retrieval
pub mod Review
pub mod SemanticCache
pub mod Tests
pub mod Trail
pub mod Worker
