-- ===== src/Lib.antt =====
-- A verification library of velpos, a web workspace for Claude sessions whose conversations can
-- also be held over instant messengers (IM).
--
-- The parts and how they interact. A channel (Lark, QQ, WeChat) delivers a message; `accept` of the
-- inbox repository stores it once, and the workers of the delivery coordinator claim the stored
-- events under a lease, hand them to the session and write back how that ended. A session is the
-- aggregate that a query, a compaction or a rewind changes. Its answers go to the outbox, from which
-- other workers send them. A request to a session is run by the query engine, which consumes the
-- stream of the agent, repeats or continues it, and starts the message that waited meanwhile. Apart
-- from this, a project keeps the versions of its CLAUDE.md file.
--
-- - Prelude, Values: shared helpers; JSON values and what Python does with them.
-- - Session: backend/domain/session/model/session.py, with message.py and usage.py in
--   Session/Messages. `start_query`, `cancel_query` and the like have the names of the methods.
-- - Query: backend/application/session/session_query_engine.py, with session_execution_state.py and
--   command/run_query_command.py. Query/Command composes the prompt; Query/Prepare is the check for
--   duplicates and `_prepare_query`; Query/Run is `_execute_streaming` and `run_claude_query`;
--   Query/Answer reads results out of the messages; Query/Finish is `_handle_result`, `_handle_error`
--   and `_finalize_query`; Query/Queue is the queue of one session under any interleaving.
--   Query/Rewind is `cancel_query` and `rewind_to_message` once the session is loaded.
-- - Query/Stream: session_stream_consumer.py beside it, with the conversion and reading of messages of
--   backend/domain/session/service/message_conversion_service.py.
-- - Query/Binding: backend/domain/session/service/sdk_session_binding_service.py and the two methods of
--   session_application_service.py that call it.
-- - Query/LockPool: KeyedLockPool of backend/domain/shared/async_utils.py.
-- - Binding: backend/domain/im_binding/model: im_binding.py, channel_init.py, channel_route.py and
--   channel_registry.py.
-- - Delivery/Inbox, Delivery/Outbox: the events of backend/domain/im_binding/model/im_delivery.py.
-- - Delivery/InboxTable: ImInboxRepositoryImpl of
--   backend/infr/repository/im_delivery_repository_impl.py, over the rows of im_delivery_model.py.
-- - Delivery/InboxWorker: the inbound half of backend/ohs/im_delivery_coordinator.py.
-- - Delivery/InboxSteps: what any number of workers do to the table, one transaction after another,
--   and the manual requeue of backend/ohs/im_delivery_monitor.py.
-- - Delivery/OutboxTable and Delivery/OutboxWorker: the outbound half of the same files, with the
--   methods of ImOutboxRepositoryImpl in Delivery/OutboxTable/Queue. Delivery/Attachments is
--   `_resolve_outbound_attachments`, which the worker's round takes as a parameter.
-- - Memory: versions of CLAUDE.md, the aggregate of backend/domain/memory/model/claude_md_revision.py
--   in Memory/Revision and the operations of
--   backend/application/memory/claude_md_revision_application_service.py in Memory/Service.
-- - Scheduler: backend/domain/scheduler/model/scheduled_task.py, `_next_time` in Scheduler/NextTime.
-- - Delivery/Policy: backend/infr/config/im_delivery_config.py and the retry delay.
--
-- The correspondence. A method that mutates its object is a function from the object to the object;
-- one that may raise returns a `Result`. A database transaction is a function of the table, and the
-- workers interleave by transactions. What another transaction sees or has locked, the clock, the
-- random source, identifiers, JSON decoding (`Runtime`) and the service that answers a message are
-- arguments. So is, for the query engine, what the gateway of the agent answers, whether a recorder, a
-- save or a broadcast goes through, and what a look at the cancelled sessions gives; the stretches of
-- its code under the queue's lock are the steps that interleave. A time is a count of microseconds and
-- all numbers are unbounded, as in Python. A loop runs over a list or counts down from the bound that
-- the code gives it; only the `while` of `_next_time` has fuel, `now + 1` rounds, which are enough
-- since each adds an hour at least.
--
-- Not modelled: the asyncio tasks, what the engine only records or broadcasts, its admission by a
-- semaphore, the waits of `cancel_query`, the network clients of the channels and of the Claude SDK, the
-- HTTP and WebSocket interface, and the SQL of the repositories without rules of their own.
pub mod Prelude
pub mod Values
pub mod Binding
pub mod Delivery
pub mod Memory
pub mod Query
pub mod Scheduler
pub mod Session
