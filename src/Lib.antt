-- ===== src/Lib.antt =====
-- CFR (Codex Feishu Remoter) takes messages from Feishu, stores them in an SQLite file, and runs
-- them as turns of native Codex threads on the local machine. The gateway enqueues a message in the
-- inbox, a worker claims it, binds it to the thread of its chat, takes the lease of that thread, and
-- reserves each chunk of the reply before it sends it; an approval that the turn asks for is decided
-- by the user through a card.
--
-- Texts are native strings. Times are natural numbers of clock ticks, where the program has floats of
-- seconds; `now` is the value of `time.time()`. A table is a list of rows in rowid order, and a text
-- primary key is an instance of `Keyed`. Each call of a store runs alone: concurrent callers are some
-- order of calls, and a transaction that is rolled back leaves the tables as they were. A run is a
-- list of calls, with any arguments. The messages of errors are not modelled, only their codes. Recursion
-- is on lists, texts and records, but for two loops that count down: the digits of a number and
-- the window of the history view, each with a bound that a theorem shows to be enough.
--
-- Which file models which part (the paths of the program are under src/cfr):
--   Prelude              tests, texts, errors, tables (Prelude/Table), selections (Prelude/Select),
--                        runs of calls and the potentials over them (Prelude/Trace), deletions by a
--                        cap (Prelude/Caps)
--   Feishu/Model         the records of feishu/models.py, and the codes of the errors
--   Feishu/Store         the tables of feishu/store.py. One child for each group of methods of
--                        `FeishuStore`, with the methods' names: Inbox, Approvals, Sessions (with the
--                        selected surface), Replies, Attachments, Daemon (the daemon lease), Chats
--                        (chat bindings and listings) and Prune (`prune_history`)
--   Feishu/Security      the two checks of feishu/security.py on a message
--   Feishu/Gateway       feishu/gateway.py: `handle_message_event`, over the store and a daemon that is
--                        an interface with a state of its own
--   Feishu/Replies       feishu/replies.py: the chunks of a text and `FeishuReplyClient`, over the store
--                        and a transport that is a record of functions with a state of its own
--   Feishu/Daemon        feishu/daemon.py: Schedule has `enqueue` and the loop of `_worker` as steps of
--                        threads, Jobs has `process_one` and `_dispatch` over handlers that are an
--                        interface
--   Codex/RuntimeLease   codex/runtime_lease.py: `CfrThreadRuntimeLeaseManager`, whose methods take
--                        the manager, the clock and the new id as arguments
--   Codex/WriterLease    codex/lease.py: `WriterLeaseManager`
--   Codex/Turns          codex/turns.py: the registry of turns; Run has `run_turn`, and Run/Loop its loop
--                        over the messages of the app server
--   Codex/Binding        codex/binding.py: `send_message`, over both leases, the bindings and the
--                        registry; Settings has `update_thread_settings`
--   Codex/Rollout        codex/rollout.py: `recent_rollout_messages`; its loop counts down from one
--                        more than the size of the file
--   Codex/Watcher        codex/rollout.py: `RolloutWatcher.poll`
--   Storage              storage/db.py: `BindingStore`, whose rows `_record` turns into records
--   Core                 core: the telemetry of a turn
-- Where a theorem is about runs, the calls of the part are one type with `apply`. A module named for
-- what it proves holds a theorem with its lemmas, and Examples the tests.
--
-- Arguments of the model: the outcome of `os.kill`, the failures of SQLite, the resolution of paths,
-- the fresh ids, the hash of a reply's uuid, what becomes of a line of a rollout file (it can raise),
-- the transport, the app server's messages and answers, and the daemon of the gateway.
--
-- Not modelled: the Feishu SDK transport, the browser automation of the Chat surface, the desktop and
-- web control center, the command line, the native Codex app server, and what only reads or formats.
pub mod Codex
pub mod Core
pub mod Feishu
pub mod Prelude
pub mod Storage
