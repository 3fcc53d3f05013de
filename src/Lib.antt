-- ===== src/Lib.antt =====
-- KTTY: a terminal in the browser or on the phone, served by an agent on the host through a relay.
-- The agent (backend/agent) runs a shell, negotiates a session key with the client, and exchanges
-- encrypted envelopes with it. The relay (backend/relay) pairs the two in a room that is named by
-- a key derived from the PIN, and passes their frames on. Both use backend/common, which holds the
-- constants, the cryptography and the message types.
--
-- Files and code:
--   Base: the helpers that all parts share, on lists, texts (their bytes), machine words, WebSocket
--     frames and results.
--   Deps: the crates, as records of operations; the laws are records of their own. Json is
--     `serde_json::Value`, Serde the derived serialisers, Ciphers the cryptographic crates and the
--     text encodings, Crates all that a session of the agent calls, PortablePty the crates for the
--     terminal.
--   Common/Constants, Common/Crypto, Common/Messages: backend/common/src/constants.rs, crypto.rs and
--     messages.rs, a function for a function. Packing and Encapsulation below
--     Common/Crypto have the proofs.
--   Agent/RingBuffer: backend/agent/src/ring_buffer.rs; Bounds and Replay have the proofs.
--   Agent/Session: backend/agent/src/session.rs. State is what a bridge works on. Bridge is
--     `bridge_loop`, with one function for each arm of its `select!`, and `bridge_step` for a round;
--     SyncReq is `handle_sync_req`. Traffic, History, Rounds, Printed, Recovery and Guards have the proofs.
--     Handshake is `perform_handshake`; Agreement, Replies, Pin, Panics and Sending below it have the
--     proofs. Joining is `Session::new`, the relay's address and the first wait of `run`, Wait its
--     loop that waits for a client to join again, and Run the whole of `run`: the phases of one
--     connection, and what each event leads to. The proofs are in Joining/Address, in
--     Keeping, Hearing and Listening below Wait, in Secrecy, and in Keys, Printing, Memory, Secrecy,
--     Silence, Reconnecting, Terminal and Loops below Run.
--   Agent/Pty: backend/agent/src/pty.rs, its two handles in Pty/Whole and Pty/Write.
--   Agent/Startup and Agent/Main: backend/agent/src/main.rs, up to its loop and the loop itself, in
--     which each round runs a connection of Agent/Session/Run. Startup/Token, Main/Shell and
--     Main/Losing have the proofs.
--   Relay: backend/relay/src/main.rs. Channel is the bounded channels, Room is `Peer` and `Room`,
--     RoomMap the map of rooms, State what is behind the mutex, Handler the locked sections of
--     `handle_socket` and the background task of `main`, Socket the whole of `handle_socket` and the
--     interleaving of sections, Entry the port and the routes of `main`. Invariant, Delivery and
--     Membership have the proofs.
--   Client/Wasm: backend/wasm-crypto/src/lib.rs, an export for an export; Splitting has the proof.
--   Client/Ffi: backend/ffi-crypto/src/lib.rs, with the caller's buffers; Sealing has the proof.
--   Meeting: agent and relay together, over the definitions of both. Stamps and Offer follow a
--     message with the agent's token through the relay; Joins, Greeting, Relayed and Rendezvous follow
--     an agent and a client from an empty relay to the agent's offer; Opening follows the client's
--     reply, and Envelopes the encrypted traffic of the session, both ways, through the relay, as
--     Passing does for any text with a token.
--   Tests: crates with toy definitions for which the laws hold, and runs of the theorems on them.
--
-- How the parts meet: what the agent sends is a text frame, in which the relay sees a JSON value
-- with an `auth` member, and which it passes on without this member; the relay's own `auth` and
-- `join` texts are what the agent's first wait looks for, and its `join` and `peer_disconnect` texts
-- what the bridge leaves its loop on. The client is present as the texts that it sends and as the
-- function that reads a message: it parses the envelope, decodes the payload and decrypts it. A
-- record of laws says what the proofs rely on where the same text is JSON for one part and a struct
-- of the messages for another.
--
-- One connection of the agent to the relay is a list of events, each an arm of the `select!` that
-- runs: what the terminal printed, an item of the socket, the timer, and the end of the task that
-- writes. An event that a phase does not take stays where it is. `last_ws_rx` of the agent is the
-- time of the socket's last item; a loop that starts with the time of its own start is reached
-- through such an item.
--
-- Numbers: u64 and usize are numbers with the sums of the source reduced modulo 2^64; where a
-- theorem needs that a counter does not overflow, it says so. Strings are lists of bytes. A panic
-- is an outcome of the bridge, of the handshake and of the wait. Time is an argument, in
-- nanoseconds. Random draws are arguments, or a sequence that the crates' record holds. No
-- definition takes fuel: the loops recur on a deque, on a list of peers, rooms or packets, on the
-- list of events that have come, or, in the agent's `main`, on the list of attempts to connect.
--
-- Not modelled: connecting to the relay and the tasks that read the terminal and write to the
-- socket (their effects are the events), the agent's command line, the HTTP server and what it does
-- with the routes and the limits, the log, the pseudo-terminal itself (the bridge's calls on it are
-- recorded), the timers, and the sockets behind the channels.
pub mod Base
pub mod Deps
pub mod Common
pub mod Agent
pub mod Relay
pub mod Client
pub mod Meeting
mod Tests
