-- ===== src/Lib.antt =====
-- gg-agent-server. The control plane: a durable ledger of background tasks in SQLite, and the rules by
-- which tasks are admitted, given capacity, run in a sandbox, published and forgotten. The sandbox: the
-- server beside the agent, which runs one execution of a task in a conversation and keeps its events,
-- its receipts and its result.
--
-- Parts, by file:
--   Prelude, Result, Table   shared names, Python's exceptions as values, and SQL's statements on a
--                            table as a list of rows
--   Sdk                      the contracts of packages/gg-sdk/gg/sdk (tasks, domain, task_execution,
--                            publication)
--   Ledger                   the class TaskLedger of backend/gg/runtime/ledger.py. Rows holds the
--                            tables of backend/gg/runtime/sqlite_migrations.py and the records; Tasks,
--                            Reservations, Lifecycle, Sandboxes, Publications, Supervisions, Messages,
--                            Results, Events and Retention hold its methods under their own names;
--                            Soundness states the invariant, and Steps runs any sequence of methods.
--                            A component's child modules hold its proofs, and Examples its tests
--   Storage                  backend/gg/runtime/storage.py: Truncation holds truncate_event_json,
--                            Manifest truncate_manifest, Retention run_retention_pass
--   Database                 SQLiteDB.write of backend/gg/runtime/sqlite_db.py
--   Checkpoints              CheckpointCoordinator of backend/gg/runtime/checkpoints.py. A Pass is
--                            one call of checkpoint: the turns of others while it waits for the lock,
--                            and its Attempt, how the copy and the commit end
--   Lifecycle                ModalSandboxLifecycle of backend/gg/runtime/modal_sandbox.py:
--                            Creation holds create, Credentials what it gives to a sandbox, Health
--                            health, Confirmed and Shown what a reported state rests on. The record
--                            Answers holds what the provider answers to one _reconnect
--   Program                  code that runs several transactions: an exception ends it, and what was
--                            written before stays. Runs holds what such a run keeps and leads to
--   Sandbox                  the tables of sandboxes/gg/server/sqlite_state.py. Below it, EventLog holds
--                            agent/event_log.py, LocalConversation agent/local_conversation.py,
--                            Executions task_supervisor/store.py, Redaction secret_redaction.py and
--                            Supervisor task_supervisor/service.py (Pipeline: _run_pipeline and
--                            _run_agent; Start: start). Samples holds data for the examples
--
-- How the model stands to the code. The state is one record, a list of rows for each table in the
-- order of insertion. A method that writes is the body of its transaction: it takes the ledger and
-- gives an error or a result with the new ledger. The database keeps the new ledger and advances the
-- revision, or rolls back; a KeyError that a method raises after its commit is a result of the
-- transaction. A unique or a foreign key of the schema that an INSERT or a DELETE would break is an
-- IntegrityError. What a method draws from outside is an argument: the time of _utcnow_iso
-- as a number, the identifier of uuid4, and for events pydantic's dump and validation (EventCodec). A
-- column with a JSON text is the value it holds. Loops over rows and events are structural recursion;
-- no fuel is used but in str.replace, which gets the length of the text, more than it has occurrences.
--
-- In the sandbox a method is a program on the state and the variables that it changes. The environment
-- of a conversation gives uuid4 and the clock at each draw. A run of a conversation is its two parts
-- under the lock, start_run and finish_run, so that messages, cancellations and the agent's events can
-- come between (finish_run is one step, though the code takes the lock twice); Steps has all of them, and a restart of the server, in any order. The answers of git, of
-- the file system, of the agent's run and of the conversation service to one pipeline are the record
-- Outside. Names of fields and of outcomes are taken to hold no secret.
--
-- Not modelled: SQLite's files, leases, locks and migrations; the scheduler, the supervision manager
-- and publication of the control plane, the provider of sandboxes and the files of a checkpoint; the
-- agent's process, git and the publication helper of the sandbox, and the HTTP glue around both; the
-- clock and the randomness themselves. That a drawn identifier is fresh is a hypothesis where one is
-- drawn.
pub mod Prelude
pub mod Result
pub mod Program
pub mod Sandbox
pub mod Table
pub mod Sdk
pub mod Storage
pub mod Ledger
pub mod Lifecycle
pub mod Checkpoints
pub mod Database
