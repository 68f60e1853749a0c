-- ===== src/Lib.antt =====
-- y7ke is a peer-to-peer messenger. Its app keeps contacts, requests, messages, sessions, a queue
-- of unsent messages, an outbox of sealed deletions and the addresses of peers in SQLite, and
-- talks to other apps over libp2p in three request-response protocols: a handshake, live messages
-- and a reconciliation of conversations.
--
-- The parts, and the files that model them:
--
-- - crates/y7ke-core: Ident is id.rs (identifiers as the numbers of their bytes), Status is
--   status.rs and error.rs, Crypto the primitives of crypto/ as a record of parameters with their
--   documented laws, and the clamping of signing.rs. Bytes, Int and Utf8 are what these need of
--   bytes, of i64 and of String::from_utf8.
-- - crates/y7ke-storage: Storage is db.rs, with a child for each file of dao/ but users.rs. A
--   table is a list of rows, and Sql is what the statements do to one (SELECT, UPDATE, DELETE,
--   INSERT OR IGNORE, ON CONFLICT). A statement is taken to succeed.
-- - crates/y7ke-net: Addr is dial_priority.rs and the classification of addresses in swarm.rs. The
--   messages of protocol.rs stand in Messaging, Handshake and App. Swarm is the task of swarm.rs
--   that owns the swarm: Swarm/Commands has handle_command, Swarm/Events handle_swarm_event and
--   the handlers that it calls, Swarm/Handle the NetHandle of handle.rs, Swarm/Life the spawn and
--   the loop run_swarm, whose rounds are an event, a command or a tick in any order (a Shutdown
--   ends the loop, which is a run that has no further round). Each call of libp2p is added to a
--   log; what libp2p answers is the record Libp2p, given anew to each round. A HashMap is an
--   association list, and its loops go in the order of that list.
-- - crates/y7ke-app: RateLimit is rate_limit.rs, Reconnect is reconnect.rs with the test of the
--   ticker that uses it, Ticker the presence ticker of app.rs, Messaging is messaging.rs,
--   Handshake is handshake.rs, Presence the connection caches of app.rs, App the state AppInner.
--   EventLoop is event_loop.rs: Contacting has handle_handshake and ensure_incoming_request, Inbox
--   handle_msg and handle_control, Syncing handle_sync, Reconcile kick_sync_for_peer, Outbox
--   drain_queue_for_peer and flush_pending_delete, Connections the arms on connections, Nat
--   handle_nat_status, Wipe wipe_conversation, and Dispatch the dispatch of events with the arm of
--   run that calls it and tells a failure. Commands is app/contacts.rs and app/messages.rs, with
--   app/settings.rs in Commands/Settings and Commands/Bootstraps, Dialing the discovery of a peer
--   in app/contacts.rs, and Config is config.rs with expand_bootstrap of y7ke-core's settings.rs.
--
-- The event loop and the commands of the app take the answers of peers as arguments, and give the
-- commands for the swarm as values: the handle between them and Swarm is a pair of channels.
--
-- Prelude holds the shared names, tests and list lemmas, Map an association list for HashMap, Text
-- the methods of str that the source uses, on lists of code points, and Samples the values of the
-- tests. A file's children prove what their names say.
--
-- A handler is a function of the state that gives the new state and a result: what it changed
-- before an error stays changed, as in the source. It reads each of the two clocks once, and runs
-- as one step; the tasks that it spawns are listed, and are steps of their own. A visit of the
-- ticker is cut where it waits for the swarm: what the other tasks do to the state meanwhile is a
-- function. Random values, clock readings and the answers of peers are arguments. What a handler
-- sends to the interface, to peers and on response channels is kept in logs. Errors keep their
-- kind and lose their text.
--
-- Bounds: the loop of pulls counts its 64 pages down, and every other loop is a recursion on a
-- list, so that no fuel runs out. u32 counters saturate at 2 ^ 32 - 1 as in the source; a count of
-- rows is cast to 16 bits where the source casts it. Sizes of SQLite's integers are not modelled.
--
-- Not modelled: the construction of the libp2p swarm with its behaviours and keys, which is calls
-- of libp2p; the start of the app; the identity file and the encryption at rest; the getters of
-- statistics, the diagnostics and logs; and the desktop shell.
pub mod Swarm
pub mod Ticker
pub mod Config
pub mod Text
pub mod Dialing
pub mod Prelude
pub mod Map
pub mod RateLimit
pub mod Status
pub mod Reconnect
pub mod Sql
pub mod Bytes
pub mod Int
pub mod Utf8
pub mod Ident
pub mod Storage
pub mod Addr
pub mod Presence
pub mod Crypto
pub mod Messaging
pub mod Handshake
pub mod App
pub mod EventLoop
pub mod Commands
pub mod Samples
