-- ===== src/Lib.antt =====
-- Models of four parts of Context Vault: the transactional work graph with the dispatcher of its
-- effects, the knowledge ledger, the builder of a model's context, and the rate limiter. All paths are
-- below document-rag-platform/services/backend/src.
--
-- The work graph. A work item goes from a draft to READY, is claimed under a lease with a fencing token,
-- has one effect applied, and is verified and closed; at each step receipts and events are written. A
-- `WorkGraphService` (application/work_graph.py) does this on the rows of models.py, by the rules of
-- domain/work_graph.py, and has a dispatcher run the effect outside its transaction. The one dispatcher
-- of the repository, `ScopedMutationDispatcher`, creates a file in a directory and removes it again.
--
-- The knowledge ledger. `KnowledgeLedger` (context_vault/knowledge.py) keeps the revisions of items of
-- knowledge. A revision is proposed, reviewed by another actor and approved under a policy; an approval
-- supersedes the revision that it replaces, and an approved revision can be revoked or expire.
-- Proposals that contradict an approved revision open conflicts, which block their approval.
--
-- The context of a model. `ContextBuilder.build` (infrastructure/retrieval/context_builder.py) turns the
-- ranked candidates of a retrieval, their parents and their neighbours into a context within a budget
-- of chunks and one of tokens, under a scope.
--
-- The rate limiter. `SlidingWindowStore.allow` (infrastructure/rate_limiter.py) keeps the hits of a key
-- in a window, and `RateLimiter` turns its answers into HTTP errors.
--
-- The files.
--   Prelude      Boolean tests, lists, texts and sorting that all parts share.
--   Json         the JSON values that rows store and that are hashed.
--   Domain       domain/work_graph.py: statuses, transitions, the admission of an effect.
--   Work/Rows    models.py: the rows, and the database as the lists of its rows.
--   Work/Session the database session: what is committed, what the transaction has written, the
--                monad of the methods, and the environment.
--   Work/Events, Work/Authority
--                the private methods that the public ones share: `_locked_item`, `_transition`,
--                `_append_event`, `_append_observation`, `_validate_signer`, `_assert_current_claim`,
--                `_assert_approvals`, `_assert_exact_replay`, `_scoped_effect_context`.
--   Work/Lifecycle, Claims, Approvals, Apply, Verify, Close, Reconcile, Rollback
--                the public methods, one function each, with a helper for each long branch. A record
--                named after a method holds its keyword arguments.
--   Work/Effects the interface of the dispatcher.
--   Work/Mutation
--                `ScopedMutationDispatcher`: Tree is the file system that it sees, Paths the
--                `PurePosixPath` of a request, Scoped its methods, Laws their theorems, and Scenarios a
--                tree at which these are applied.
--   Work/Requests a request to the service, each in its own session, and a run of many.
--   Work/Rules   how the properties of actions compose: what an action keeps, returns, reads, and
--                that it commits at its end.
--   Work/Logs, Work/Atomicity, Work/Laws
--                the theorems on the two logs, on failing requests, and on single methods.
--   Work/Scenarios
--                a small work item at which the theorems are applied.
--   Knowledge/Records, Revision
--                the values of the ledger with the checks of their `__post_init__`.
--   Knowledge/Ledger, Lifecycle, Approval
--                the dictionaries of the ledger and its methods, one function each.
--   Knowledge/Runs a call of any method, and a run of calls.
--   Knowledge/Laws
--                Checks inverts accepted checks, Tables is on lookups and counts, Steps has the lifecycle
--                as a step relation, Approving, Performing, Tracking and Heads take the methods to it, and
--                Running, Publishing and Projecting have the theorems on runs, approvals and projections.
--   Retrieval/Chunks, Context, Bundle
--                chunks with their identity and scope, the loop of the builder, and what it returns.
--   Retrieval/Laws
--                Rules takes a property through the loop of the builder, for Budgets and Scoped.
--   Limiter/Store, Window
--                the store of hits, and a sequence of requests with the ones that it allowed.
--   Limiter/Laws the theorems on such sequences.
--   Knowledge/Scenarios, Retrieval/Scenarios, Limiter/Scenarios
--                concrete calls, candidates and requests at which the theorems are applied.
--
-- The state. A method of the work graph is a function from a session to a result, returned or raised,
-- and a session. A write changes the working database; `commit` copies it to the committed one, and
-- `run` keeps what is committed, so that a raise drops what was not. A loaded row is a value: a method
-- that mutates it stores the new value and goes on with it. While an effect runs, other sessions may
-- commit: the dispatcher's `meanwhile` is what they do to the database, and the rows are read again
-- after it. A method of the ledger returns what it accepts or why it refuses, with the ledger that it
-- leaves; the dispatcher of files does so with the tree, the builder with its variables, and the
-- store with its buckets.
--
-- Parameters. The clock and the identifiers that are drawn are sequences or arguments, and SHA-256, the
-- canonical JSON text, the text of a UUID and the token counter are functions, of which nothing is
-- assumed but, in one theorem on the dispatcher, that a SHA-256 is written as 64 hexadecimal digits.
-- The service's dispatcher is any record of its answers, and the builder's resolvers of parents and
-- neighbours are any functions. The order, the limit and the locks of the query for
-- stale leases are any function of the rows that match it, and how the writing of a file ends is an
-- argument of the dispatcher. A UUID is a number, and an instant and a duration are whole microseconds; the limiter's clock is any
-- sequence of numbers that does not go back. A confidence is a fraction. Nothing runs on fuel: each
-- function is structurally recursive or does not recur.
--
-- Not modelled. The constraints that the database enforces (uniqueness, foreign keys) and the errors
-- and retries that follow from them; the identifiers and correlation identifiers of events, which
-- nothing reads; the sessions that interleave elsewhere than at an effect, since each method locks its
-- work item first; the messages of exceptions of the work graph. Other processes that change the tree
-- while the dispatcher of files works in it, failing reads, and the checks on its root when it is
-- constructed. Python's tests of types in the constructors of the ledger, which the types here make,
-- and overlapping calls of its methods. Of the context, the identifiers that are passed through; of the
-- limiter, the Redis script and how the key of a request is built. Of the other parts of the platform
-- (ingestion, the retrieval before the context, answers, registries, API) nothing is modelled.
pub mod Prelude
pub mod Json
pub mod Domain
pub mod Work
pub mod Knowledge
pub mod Retrieval
pub mod Limiter
