-- ===== src/Lib.antt =====
-- Verification of pinakes, a message bus for agents.
--
-- The program. Agents register with a TTL, send requests, responses and informs to each other,
-- poll their inboxes by a cursor, ack requests and report progress and results; people inject
-- messages; observers follow a ring of events. pkg/bus holds the store and its rules, in memory
-- or with a durable backend that commits before a change becomes visible; pkg/httpapi serves it
-- over HTTP. internal/nsmigrate renames the identities of a database by a reviewed manifest. This
-- library models pkg/bus/store.go with scope.go, types.go and errors.go, the durable delivery of
-- sqlite.go and sqlite_delivery.go, and manifest.go, migrate.go and report.go of internal/nsmigrate.
--
-- The files. Base (with Tests, Lists, Int, Dict) has the shared names and lemmas, Text the texts
-- of Go's strings package and the decimal and JSON printing. Types is types.go, Errors is
-- errors.go, Config is the configuration and NewStore, Scope is scope.go. Store has the state of
-- store.go, and below it: Status (isTerminal), Access (authorizeAgentForName,
-- authorizeActorForNames, actorCanAccessAllNames), Inbox (appendInboxLocked,
-- dropInboxPrefixLocked), Observe (publishLocked, trimObserveLocked), Push
-- (enqueuePushJobLocked), Conversations (ensureConversationLocked), Sweep and Sweep.Prune
-- (sweepLocked, pruneLocked), Register (RegisterAgent), Listing (ListAgents, CreateConversation,
-- ListConversations, ListConversationMessages, snapshotCounts), Acceptance and Send
-- (sendMessage), Inject (inject), Poll (pollInbox), Lifecycle (ack, postEvent), Observing
-- (ObserveSince). The theorems stand in the modules Laws and Budget below the part that they are
-- about, in Send.Memory and Send.Again (idempotency), Send.Delivery (where a message goes),
-- Register.Lifetime (the wrap of a TTL), Sweep.Kept (what the pruning leaves), Poll.Joined (two
-- looks at an inbox), Lifecycle.Moves (where reports move the messages) and Lifecycle.Rate (two
-- progress events), and in Store.Sound: the invariant, the runs of a store (Reach), what an
-- operation may do to the messages (History, Runs) and which messages nothing changes (Final).
-- Tests has runs at concrete inputs.
--
-- Migrate has the types of internal/nsmigrate; below it Rows (parseManifestRow, validateMapping),
-- Manifest (ParseManifest, WriteManifest, InvertManifest, over Text.Csv, the reader and writer of
-- encoding/csv), Inspect (inspect), Plan (the report, selectMappings, preflight, planConversations)
-- and Apply (applyPlan, Run). Manifest.Scan and Manifest.Apart say which rows are accepted, Inverse
-- and Accept have the theorems on manifests; Inspect.Laws and Inspect.Used say what is counted;
-- Apply.Columns, Rename, Whole, Conversations, Selected, Total and Names lead from one UPDATE to the
-- renaming of the whole database, and Apply.Quiet says when a run writes.
--
-- Durable has the tables of sqlite.go that sqlite_delivery.go works on, and the order of the texts of
-- their times; below it Accept (persistAcceptance, persistAck, CreateConversation), Push (recordPushSuccess,
-- recordPushFailure, claimDuePushes, the recovery at start and in Close), Read (readDurableInbox),
-- Prune (pruneDB) and Backfill (backfillLegacyDeliveryState). Each is one transaction, from the tables to the tables; a statement that fails is
-- `none`, and the tables stay. Rows, Moves, Transactions and Looked say what a transaction does to the
-- deliveries and cursors, Steps has the runs of transactions, Refusals and Answers the theorems on
-- sends and looks, Push.Backoff the wait between two cycles of a push. The clock of a transaction is
-- read once, before the year 10000. A base of the wait is below 2^62 ns, and the text of a failure is
-- ASCII. A foreign key of deliveries is kept by what is deleted with a message.
--
-- The model. The mutex makes each operation one step, so that an operation is a function from the
-- store to a result and the next store. A time is the count of nanoseconds since Go's zero time,
-- so that 0 is the zero time; a completed duration is a natural number, a number of a request an
-- integer. `seconds` wraps at 64 bits as time.Duration does. A Go map is an association list,
-- whose order stands for whatever order Go takes. A value of type any is nil, a JSON text or what
-- json.Marshal refuses. The length of the JSON text of an observe event and sha256 are parameters
-- (Env). The durability barriers of a send, an ack, an event and a cursor are parameters of the
-- operations; the store in memory has none. The database of a migration is its identity columns
-- with the keys beside them; the participants of a conversation are what json.Unmarshal reads in
-- their column. The faults of the disk and of the driver are an argument of Run (Disk), and a
-- transaction that is not committed leaves the database as it was. Texts are valid UTF-8. A long poll is a list of rounds, each with its clock
-- readings and with what the others did since the last round; a theorem on one round holds for
-- each.
--
-- Bounds and fuel. sort.Search runs on fuel, n for n elements, which halving never uses up, and
-- the decimal printing on the number itself, which is at least the number of its digits less one.
-- All other loops are recursion on their list. Counters and byte counts do not overflow here.
--
-- Not modelled: logging, the notification channels, the clones (identities on values), the push
-- workers with their HTTP callbacks and shutdown, the order that sort.Slice gives to ties, the
-- rounding of Duration.Seconds, times before 1970 in UnixNano, a negative id in ObserveSince, the
-- text of Health, SystemStatus and Metrics; persistent.go, compact.go and migrate.go of pkg/bus; of
-- sqlite.go the loading and saving of the other tables and the vacuum, of sqlite_delivery.go the
-- wait of a poll and what is copied into the store in memory; compare.go and synthetic.go of internal/nsmigrate;
-- pkg/httpapi, pkg/busclient, internal/configutil and cmd. Of the CSV reader's errors the position
-- is left out, of the driver's errors the text. Code points above 126 are printed as they are by %q.
-- Where Go visits a map to report the first fault, the model takes the order of insertion.
pub mod Base
pub mod Text
pub mod Types
pub mod Errors
pub mod Config
pub mod Scope
pub mod Store
pub mod Migrate
pub mod Durable
pub mod Tests
