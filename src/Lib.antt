-- ===== src/Lib.antt =====
-- waepic: a WhatsApp client library, as a model of its crates.
--
-- The program has three layers. `waepic-connection` owns the WebSocket, the
-- Noise handshake and the encrypted socket, reads frames, answers the waiters
-- of IQ requests and reconnects. `waepic-session` keeps the protocol state and
-- the caches in SQLite or in memory. `waepic-client` pairs the device, turns
-- the raw events of the connection into updates, and sends messages.
--
-- Connection (crate waepic-connection/src)
--   Connection/Error      error.rs
--   Connection/Noise      noise_socket.rs: the read and write counters, sealing
--                         and sending, opening
--   Connection/State      connection.rs, frame.rs: ConnectionConfig, RawEvent,
--                         ConnectionCommand and the state that the runner and
--                         the handles share
--   Connection/Frame      frame.rs: process_incoming_frame, handle_send_node
--                         and send_keepalive
--   Connection/Handshake  frame.rs: perform_xx_handshake
--   Connection/ReadLoop   frame.rs: read_loop
--   Connection/Lifecycle  frame.rs: connect_once, cleanup_connection
--   Connection/Backoff    frame.rs: fibonacci_backoff
--   Connection/Runner     connection.rs: ConnectionRunner::run
--   Connection/Handle     connection.rs: ConnectionHandle
--   Connection/Waiters    the steps that handles and runner take on the table
--                         of waiters, in any order
-- A handle shares the table of waiters, the id counter and the connected flag
-- with the runner; both are fields of one state, and each operation is a
-- function on it that returns the state beside its result or error. The code
-- that other crates hold (the cipher, the framing, the binary node format, the
-- handshake, the transport) is a parameter, a record of operations in
-- Connection/Ports. What the transport, the timers and the command channel
-- bring is a list that the loops consume, so they end by recursion on that
-- list; a round of the runner is given what it will meet, and needs no fuel.
--
-- Session (crate waepic-session/src)
--   Session/Sql           what the stores ask of SQLite; Session/Sql/Log is a table
--                         that keeps it
--   Session/Schema        sqlite/mod.rs: the tables, their rows, and a statement,
--                         which may fail
--   Session/Signal        sqlite/signal_store.rs
--   Session/AppSync       sqlite/app_sync_store.rs
--   Session/Protocol      sqlite/protocol_store.rs without its sent messages
--   Session/Sent          those messages, and sqlite/msg_secret_store.rs
--   Session/Device        sqlite/device_store.rs, clear_device of sqlite/session.rs
--   Session/Chats         the rest of sqlite/session.rs
--   Session/Memory        memory.rs: the caches of MemorySession
--   Session/Caches        session.rs: the chat cache of the trait Session, both of its
--                         implementations, and the abstract cache
-- SQLite is not part of the repository: the record Sql holds the documented effects
-- of SELECT, INSERT OR REPLACE and DELETE on a table with a primary key. Whether each
-- statement succeeds is a list in the session, one entry for each statement run; a
-- list that has ended stands for success. serde_json and the text of a Jid are
-- parameters too, and the clock is an argument.
--
-- Client (crate waepic-client/src)
--   Client/Error          error.rs
--   Client/World          client/mod.rs: what the tasks of a client share. The calls of
--                         the handle are a list, the latest first; how each is answered
--                         is a parameter.
--   Client/Server,        peer: the chats; `chat` of client/mod.rs
--   Client/Chat
--   Client/Front          client/mod.rs: clear_device, load_or_create_device, disconnect
--                         and logout
--   Client/Login          client/auth.rs: is_authorized, check_login_status and get_me
--   Client/PairCode       client/auth.rs: request_pair_code, the check of its number, and
--                         the task that waits for the pair-success node;
--                         client/handlers.rs: handle_pair_code_notification
--   Client/Pairing        client/pair.rs: request_pairing, run_qr_pairing and
--                         handle_pair_success. What ends
--                         each wait is an entry of a list, which the waits consume.
--   Client/Prekeys        client/pair.rs: upload_prekeys_if_needed, over the store of
--                         Session/Signal. The key generator, the encoding of a prekey and
--                         the answers of the server are parameters.
--   Client/Update         update.rs: the updates and what they carry
--   Client/Handlers       client/handlers.rs: the handlers of receipts, presences, chat
--                         states, notifications, failures, pair codes and ib nodes,
--                         the task of a dirty bit and the history sync. Decompression and
--                         protobuf are parameters.
--   Client/Updates        client/updates.rs: run_update_stream and run_post_connect_init.
--                         The events are a list, which the loop consumes; the handlers of
--                         messages and of pair code notifications are parameters.
--   Client/Signal         client/signal_adapter.rs: the stores that libsignal is given
--   Client/Message        message/input_media.rs and message/input_message.rs
--   Client/Media          download.rs: refresh_media_conn, execute_download_request and
--                         download. The answers to the IQs, the HTTP responses and the
--                         clock are parameters; the attempts left are the recursion, two
--                         as in the code, so it needs no fuel.
--
-- Not modelled: logging, the WebSocket and TLS I/O of transport.rs, the async
-- executor, the methods of MemorySession that delegate to the backend of wacore,
-- download_to_file and download_to_writer, the sending and the receiving of messages, and the
-- rest of waepic-client.
pub mod Prelude
pub mod Connection
pub mod Session
pub mod Client
pub mod Tests
