-- ===== src/Lib.antt =====
-- The verification library of supamail's API package, apps/api/src. It models the parts of the
-- program that decide: whether a message is handed to the mail server again (send-operations.ts),
-- which messages become one conversation (threading.ts), what goes into one write of a sync
-- (sync-limits.ts), what a search asks for (the files of search), which target a runtime serves next
-- (target-scheduler.ts, migration-id.ts), how fast IMAP commands are sent (throttle.ts), and which
-- hosts a user may name (host-validation.ts).
-- The parts share no state. The scheduler asks migration-id.ts whether a target's schema is ready.
-- In threading.ts the header reconciliation asks the message id scan, and the linking loop builds the
-- forest with addNode and attach. The query parser reads the tokens of the same file and asks rules.ts
-- for dates, message ids and suggestions.
--
-- Files:
--   Common: shared names, Boolean tests on the native numbers, lists, results of code that throws
--     (`Outcome`), sets and maps over keys, orders by a Boolean test, texts as code points.
--   SendOperations: apps/api/src/send-operations.ts. An operation is a tree of its calls (`Calls`) to
--     the store, the provider and the host, with what follows each answer, a rejected promise
--     included. Flow has `await` and `try`; Send has reconcileOperation, resolveExistingOperation and
--     replaySendOperation; Send/Run has runSendOperation, one definition for each block of it. Phases
--     has the rules that an attempt keeps, Claims relates runSendOperation to them, Send/Laws
--     replaySendOperation. Drafts has replayDraftSaveOperation and runDraftSaveOperation, and how a
--     run ends under given answers. Concurrency has the interleavings of several attempts over
--     one row of the store, with the contract that the comment on SendOperationStore documents; Concurrency/Safety
--     has the theorems about them.
--   Threading: apps/api/src/threading.ts. MessageId has unfold, rejectInternalCfws and
--     canonicalizeMessageId, MessageId/Scan has scanMessageIdTokens, Headers has isChainSuffix,
--     compatibleReferenceChains, reconcileHeaderOccurrences and reconcileHeaderTokenSources. Graph has
--     the forest of GraphNode objects with addNode, wouldCreateCycle, detach and attach: a node is a
--     mutable object that the `nodes` map holds under its key, so the graph is a store from keys to the
--     fields of the nodes. DisjointSet has the class of that name. Common/Order has binaryCompare,
--     over any strict total order of the keys. Links has the nodes of threadAccount and its linking
--     loop: a node's key is a text with a word for its kind, here a constructor (`NodeKey`); Links/Whole and
--     Links/Forest keep the forest, Links/References follows the references of a delivery, Links/Order
--     and Links/Nodes have the visiting order and the keys, Links/Account the whole. Conversations has the
--     components of the linked nodes and the loop over the provider's threads: Conversations/Edges and
--     Conversations/Groups have the parts, Conversations/Forwards, Conversations/Eligible and
--     Conversations/Bounded the components that hold a forward, Conversations/Connections the unions of
--     one thread, Conversations/Threads a round and Conversations/Providers the loop,
--     Conversations/Account the whole. KeyOrder has an order of texts and nodes for the tests.
--   TargetScheduler: apps/api/src/target-scheduler.ts. The state holds the variables that the closures
--     of runRuntimeTargetTasks share, and the tasks whose promise chains are open; Steps has the
--     events, Tasks the lists of tasks, Invariant the books, Events their preservation, Guarantees the
--     theorems.
--   Search: apps/api/src/search/parse.ts, tokenize and parseTextTerms; Terms/Tokens and Terms/Groups have
--     the theorems. Fields has SearchFilter of search/types.ts and the tables of search/filter-fields.ts; Query
--     has readToken, Query/Parse parseQuery, Query/Structured filtersFromStructured; Query/Result,
--     Query/Filters, Query/Warnings and Query/Adapters have the theorems. Rules has the dates and message ids of
--     search/rules.ts, Rules/Dates their theorems; Rules/Distance has editDistance, Rules/Distance/Scripts
--     the edit scripts and Rules/Distance/Rows the theorem.
--   Throttle: apps/api/src/throttle.ts, in units of 1/60,000 of a token, so that the refill of a
--     millisecond is a whole number; the rounds of `acquire` take the time at which each starts. Rate
--     has the theorems.
--   HostValidation: apps/api/src/host-validation.ts. Digits reads numbers, Blocks and Mapped the ranges
--     of addresses, Denied says which addresses are denied and Classified proves that the code denies
--     these; Targets has the two checks of a target, Targets/Accepted and Targets/Allowed their theorems.
--     A port is a natural number, so the code's test for an integer is not in it.
--   MigrationId: apps/api/src/migration-id.ts, publicMigrationSequence, assertRequiredSchemaVersion and
--     isSchemaVersionReady; Order has the theorems.
--   SyncLimits: apps/api/src/sync-limits.ts. The three splitters, their footprints and limits;
--     Batching has their loop once, for any step with the shape that they share.
--   The files called Tests evaluate the definitions and apply the theorems at concrete inputs.
--
-- Fuel: the parent walk of wouldCreateCycle takes two rounds more than there are nodes, and `find` of
-- the disjoint set one round more than there are keys; `none` stands for fuel that ran out, and their
-- theorems state that a result is returned. The rounds of the scheduler's `pump` are one more than
-- the pending tasks, each of which takes one; its invariant rests on this bound.
--
-- Parameters: the length of the JSON text of a value, which the platform's JSON.stringify and
-- Buffer.byteLength give (`none` where it throws); the digest of a request, which
-- hashSendRequest gives; the answers of the store, the provider and the Sent lookup, which are
-- universally quantified. A Sent lookup returns objects, which are truthy. The limits of the scheduler
-- are natural numbers, so the code's test for an integer is not in it. Texts are lists of code points,
-- and of UTF-16 code units in MessageId and Search, where lengths count units. What counts as a letter
-- or a digit in a search is the platform's table of Unicode properties, and so are toLowerCase and
-- the rounding of a product (`Platform`). The test isIP of Node and the answer of the DNS are
-- parameters of HostValidation, the first with the laws that it documents: which texts it reads as
-- IPv4 addresses, and as IPv6 addresses. The comparison of the
-- linking loop's sort is any Boolean test.
--
-- Not modelled: canonicalJson and hashSendRequest of send-operations.ts, the rest of threading.ts
-- (parsePhysicalMessage, parseSubject, delivery groups, the subject fallback and the summaries),
-- findNonAdditiveStatement, resolveFolder and relative dates of search/rules.ts, the compiler of
-- search, the timers and abort signals of throttle.ts, the SQL of the repositories, IMAP and SMTP I/O,
-- the HTTP, CLI and MCP surfaces, and everything outside apps/api/src.
pub mod Common
pub mod HostValidation
pub mod MigrationId
pub mod Search
pub mod SendOperations
pub mod SyncLimits
pub mod TargetScheduler
pub mod Threading
pub mod Throttle
