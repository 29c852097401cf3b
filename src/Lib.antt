-- ===== src/Lib.antt =====
-- Entourage: durable sessions and mail for agents and workflows, modelled from the Python sources.
--
-- Entourage keeps work alive between the runs of short-lived workers. A sender appends events to
-- a session's or a conversation's queue; a worker claims a batch of them under a lease with a
-- deadline, runs an agent, and checkpoints the result, acknowledges the mail or gives it back; a
-- worker that dies loses its lease when the deadline passes, and another one serves the same mail.
-- What has to be right is therefore the bookkeeping between claims and commits: who holds what,
-- until when, and what becomes of the mail.
--
-- Files and code:
--
-- Prelude.antt and its children: Boolean tests on numbers, lists as tables and as sets, dictionaries in
--   insertion order, results of code that may raise, and the decimal text of a number.
-- Mail.antt: JSON values and the event dictionaries that the components exchange.
-- Sessions.antt and its children: entourage/sessions.py with the shared types of
--   entourage/session_backend.py. Types.antt has the three tables as lists of rows in rowid order
--   (wake_sessions, wake_inputs, wake_definitions); a transaction is a function from the store to
--   a result, and one that raises gives no store back, which is the rollback of
--   LocalSessions._transaction. Ready.antt is the _READY clause with SQL's three-valued logic
--   (`none` is NULL). Mailing.antt has bind_definition, inspect, list_sessions, create and append;
--   Claim.antt has claim; Checkpoint.antt has release, retry and commit; Purge.antt has purge.
--   Valid.antt is the well-formedness of a database, its children prove that every operation keeps
--   it. Run.antt runs a history of calls. Service.antt has what claims, senders, commits and
--   purges promise. A clock reading and a fresh token (uuid4) are arguments of the calls. The
--   claim's `while` loop is recursion on fuel, one more than there are sessions: each turn that
--   does not return sets one session's status to failed, which no later turn selects, and
--   Sessions/Service/Total.antt proves that the fuel is never used up.
-- Mailbox.antt and its children: InMemoryMailbox of entourage/mailbox.py, the reference backend of a
--   conversation's event queue. Types.antt has its state, the dictionaries as lists of items in
--   insertion order; Queue.antt has append, claim, claim_any, acknowledge, release and the counts,
--   Purge.antt the two purges. A call gives the mailbox it leaves also when it raises, since nothing
--   is rolled back: an acknowledgement that is refused at one event has acknowledged those before
--   it. Valid.antt is well-formedness, with the proofs that every call keeps it; Run.antt runs a
--   history; Stays.antt has the events that no call may touch; Delivery.antt, Senders.antt,
--   Counts.antt, Waiting.antt and Retention.antt have what consumers, senders and waiters rely on.
-- Exchanges.antt and its children: the pending-request table of entourage/exchanges.py. The request
--   id that Context.request returns is an argument of request; Shuffles.antt is the relation of two
--   lists to the list they were split from; Call.antt makes requests through an activation's context.
-- Panel.antt and its children: the registry of called work of entourage/panel.py; the messages that
--   its calls send are given by their destination. Ingest.antt has its ingest over that of Exchanges: a
--   reply shares its entry with the table, so the entries that a result takes out of the table are kept
--   beside it for the replies of the same delivery.
-- Executables.antt and its children: the dispatcher of entourage/executables.py over the session
--   store. Types.antt has its records, Context.antt what a handler stages, Registry.antt contracts and
--   registration, Dispatch.antt run_once with its release, and run_until_idle, Watch.antt run_forever.
--   A handler is any function of its context, state and mail that returns a proposal, returns
--   something else or raises. The digest of _identity, the JSON text of a contract, the text of an
--   error and the number of ticks in a second are arguments, as are the readings of the clock. The
--   loops are structural: over the offsets of the rotation, over the budget of run_until_idle, and
--   over the turns before run_forever is told to stop.
-- Chat.antt and its children: the chat agent of entourage/turn.py and the tools of
--   entourage/deferred_tools.py. Types.antt has the session's state as a record (a missing list of
--   deferred or buffered messages is the empty one), Schemas.antt what the model is shown and
--   ChatAgent.__init__, Tools.antt run_tool, Lifted and ToolRunner, Inbox.antt the ingestion of mail,
--   Calls.antt _run_call with delegation and controls, Turn.antt _turn and resume. The model, the tools,
--   the JSON parser and printer, the texts of values and the clock are arguments; an exception of a
--   handler gives no proposal. Keeps.antt follows a message through an activation, Parks.antt has what
--   the model is not asked and not told.
-- Monitors.antt and its child: the expectations of entourage/monitors.py, with the in-memory store as the
--   dictionary of armed records. Spells.antt has the quiet spells of heartbeats as a step relation.
-- Plans.antt and its children: the plan forms of entourage/flow.py and their expansion in
--   entourage/runtime/planner.py. Staging is recursion on the plan; the uuid digits are a function of the
--   number of executions staged, and a callable is its name and its identity. Closed.antt, with Staged.antt, and Spawn.antt
--   have what a staged plan and a staged child session promise.
-- Ingress.antt and its children: the keying of events to sessions of entourage/session_ingress.py, over
--   the session database. A delivery is two transactions and gives the database it leaves also when the
--   second one raises.
--
-- Instants and durations are natural numbers of ticks, with the non-finite and negative floats as
-- constructors of their own where the code tests for them. Definition contracts are the JSON text
-- that the code compares.
--
-- Not modelled: SQLite itself and the migration of old tables, threads and locks (each call is one
-- transaction or one critical section of the source; another call between the search and the claim of
-- claim_any is not modelled), the blocking of wait_for_events, the loading of manifests and code, the
-- conversion of a model client's objects to messages (litellm_complete, message_dict), the stores and the
-- engine of the graph runtime with its transitions, capabilities, and the components that only call an
-- external service (models, Redis, SQS, HTTP servers, Telegram).
pub mod Prelude
pub mod Mail
pub mod Sessions
pub mod Mailbox
pub mod Exchanges
pub mod Panel
pub mod Executables
pub mod Chat
pub mod Monitors
pub mod Plans
pub mod Ingress
