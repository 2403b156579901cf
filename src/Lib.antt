-- ===== src/Lib.antt =====
-- The task store and the reservation ledger of aimem, the hub that keeps the memory, tasks and
-- team work of coding agents (internal/store).
--
-- A project is one SQLite database. Tasks are content under a revision: CreateTask and
-- UpdateTask (internal/store/tasks.go) validate the content, find or write an idempotency
-- receipt, compare the expected revision, and write the snapshot, a history row and a state
-- change in one transaction. The reservation ledger (internal/store/task_reservations.go and its
-- _coordination and _recovery files) puts a hold on a task: a claim makes it, and each further
-- transition names its id and its fence, a counter that every transition raises. While a hold is
-- active, UpdateTask is refused; the ledger alone writes the task. A recovery closes a hold that
-- its holder cannot close. A task is found in its project by hints and a scan
-- (internal/store/taskloc.go), by a short id too (internal/store/taskprefix.go). A claim of a
-- task with dependencies gathers their graph across projects and checks it
-- (internal/store/task_reservation_dependencies.go). Documents and records are written by
-- compare-and-swap (internal/store/docs.go, internal/store/collections.go), and two versions of
-- a document are merged by lines (internal/diff3/diff3.go).
--
-- Prelude holds the shared helpers: byte strings, Boolean tests, lists, tables by key. Text
-- models taskText and the identifier shapes, Text/Utf8 the decoding of UTF-8. Json models the
-- values that receiptDigest hashes; Json/Canonical is about its canonical form. Reason and Error
-- are the refusals, by name in place of a message text. Task and Task/Content model the types
-- and the validation of tasks.go and taskrefs.go; Task/State the state names; Epic the types and
-- the validation of epics.go. Db models the schema's tables as a record and a transaction as a
-- function from the tables to a result. Mutation models taskMutation, checkedTaskMutation and
-- replays; Mutation/Replay is about retries, Mutation/Fresh about what an acceptance is. Tasks
-- models CreateTask, UpdateTask, saveTask, writeTask, readTask and GetTask. Tasks/Writes,
-- Tasks/Consistent, Tasks/Effects and Tasks/Accepted are the lemmas that Tasks/Cas applies.
-- Tasks/Triage models TriageTask (task_triage.go), and Tasks/Triaged is about what it did. Epics
-- models CreateEpic, UpdateEpic, GetEpic and saveEpic (epics.go) and the task comments;
-- Epics/Apart is about what they leave alone.
--
-- Reservation models the ledger's types, SameHolder, checkCoordinatedHolder and actingMember;
-- Reservation/Input the validation of inputs, bindings, coordination facts and evidence;
-- Reservation/Rules is about what a valid input says; Reservation/Evidence models
-- EvidenceDigest. Ledger models the parts of a transition: readTaskReservation,
-- advanceReservation, the events, the service rows, the process pin and the receipts' table.
-- Ledger/Apply models reservationMutationTx and DB.ApplyTaskReservation, Ledger/Recover the
-- recovery. Ledger/Hold, Ledger/Moves, Ledger/Receipts, Ledger/Recovered and Ledger/Tables are
-- lemmas on them. Ledger/Kept and Ledger/KeptSteps are about the receipts that stay, and
-- Ledger/Replays about retries after any operations; Ledger/Retry, Ledger/Fence,
-- Ledger/Terminal, Ledger/Closes, Ledger/HoldSteps, Ledger/Steps and Ledger/Protects are about
-- the whole operations and their sequences.
--
-- Locate models LocateTask, scanForTask and taskHints: Locate/Hints is about their size,
-- Locate/Answers about the answers against a scan, Locate/Homes about where an answer was seen;
-- Locate/Created models CreateTask with the hint that it leaves. Prefix models the short ids of
-- taskprefix.go; Prefix/Range is about its range query and Prefix/Resolve about what a short id
-- resolves to. Dependencies models locateDependencyGraph and validateDependencyGraph:
-- Dependencies/Gather and Dependencies/Closed are about the first, Dependencies/Walk and
-- Dependencies/Cycles about the colouring walk, Dependencies/Accepted about an accepted graph,
-- Dependencies/Composed about both in sequence. Versions models the transaction that PutDoc and
-- PutRecord share, with its two tables: Versions/Kept is about the rows of a key,
-- Versions/Register about the register of all versions that the tables show, Versions/Retry
-- about retries. Docs models PutDoc, GetDoc, PutRecord and GetRecord, and Docs/Refine is about
-- them. Diff3 models Merge: Diff3/Slices, Diff3/Clusters, Diff3/Ranges and Diff3/Single are its
-- lemmas, Diff3/Script is about diff, Diff3/Merging about Merge; Diff3/Lines models MergeText.
--
-- Tests runs the operations on a small project and applies the theorems there.
--
-- How the model stands to the source. A Go string is the list of its bytes, a revision and a
-- fence a natural number (a value below 1 is refused as 0 is); the overflow of a fence at the
-- largest int64 is checked as in the source. A transaction that fails leaves the tables as they
-- were. A column that holds JSON holds the value itself. A slice expression of diff3.go whose
-- bounds cross or lie past the end is a panic, a value of the model. The answers of uuidv7.New,
-- of the clock and of the caller's authorize function are arguments. redact.ScanAuthored,
-- unicode.IsPrint, the test of an http URL, the JSON text and the hashes are fields of the
-- record Platform, and no theorem assumes anything of them. The empty list stands for a nil one,
-- but for the terminal evidence, whose nil is kept apart. An update, release, finalize or
-- recovery without content, which validation excludes, is an error in the model. The revision of
-- a document or a record is a natural number too, and so is a base revision. In Dependencies and
-- Locate a parameter tells what the hub holds at each step: the projects of every scan, and the
-- tables, access ids and verifier's answers before and under the locks; a map's order of
-- iteration is that of a list. In Docs, redact.ScanAuthored, json.Valid and strings.TrimSpace
-- are the record Checks.
--
-- Fuel. The gathering loop of Dependencies has 512 * 33 + 2 rounds, since it takes 512 tasks at
-- most and a stored task has at most 32 dependencies; its walk has one more than the tasks,
-- since each nested call enters another one. In Diff3 a cluster has one round more than the
-- hunks that are left, and Merge one more than the hunks of both sides, since every cluster
-- takes one. The float64 rounding of Json counts the bits past 53 up to 12, enough for 64-bit
-- numbers. No other definition runs on fuel.
--
-- Not modelled: failures of SQLite other than a violated unique key; locks, contexts and
-- timeouts; message texts; the list pages and searches, ListEpics and the other operations of
-- the store; the transaction of a claim over several databases and
-- ReconcileReservationDependencies; the server, the clients, the command line and the installer,
-- which call the store.
pub mod Prelude
pub mod Text
pub mod Json
pub mod Reason
pub mod Task
pub mod Epic
pub mod Reservation
pub mod Error
pub mod Db
pub mod Mutation
pub mod Tasks
pub mod Tests
pub mod Epics
pub mod Ledger
pub mod Diff3
pub mod Versions
pub mod Docs
pub mod Locate
pub mod Prefix
pub mod Dependencies
