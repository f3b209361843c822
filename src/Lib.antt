-- ===== src/Lib.antt =====
-- The Assuan protocol crates: a line protocol between a client and a server, and the canonical
-- S-expressions that its payloads carry.
--
-- crates/assuan-protocol/src:
--   escape.rs                 Protocol/Escape: `decode_data_in_place` as its two passes over the buffer
--   command.rs                Protocol/Command: `Command::new`, `parse`, the checks of lines and tokens
--   message.rs                Protocol/Message: `ServerLine`, `parse_server_line`
--   encode.rs                 Protocol/Encode: `encode_command`, `encode_response`, `encode_data_chunk`
--   frame.rs                  Protocol/Frame: `LineBuffer`
--   limits.rs, secret.rs      Protocol/Secret: `extended_length`, `SecretBytes`
--   error.rs                  Protocol/Error
--   state/                    Protocol/State: `ServerMachine`, `ClientMachine`; Lockstep joins the two
--   Protocol/Wire joins an encoder, the framing and the parser, as the transport does.
-- crates/assuan-sexpr/src:
--   limits.rs, error.rs       Sexpr/Limits, Sexpr/Error
--   value.rs                  Sexpr/Value: `Sexpr`; Sexpr/Owned: `to_owned`
--   parser.rs                 Sexpr/Parser: `parse_prefix`, `parse_complete`
--   writer.rs                 Sexpr/Writer: `to_canonical`, `write_canonical`
-- crates/assuan-transport/src:
--   error.rs                  Transport/Error
--   channel.rs                Transport/Channel: `Channel`, reads and writes of lines; Transport/Stream:
--                             the stream under it
--   Transport/Exchange joins an encoder, two channels and the parser.
-- crates/assuan-server/src:
--   error.rs                  Server/Error
--   registry.rs               Server/Registry
--   hooks.rs                  Server/Hooks: OPTION requests; Server/Policies: the hooks
--   options.rs                Server/Options
--   context.rs                Server/Context: what a handler sends; Server/Program: what it does
--   inquiry.rs                Server/Request: `request_kind`; Server/Inquiry: `ServerInquiry`
--   builtins.rs               Server/Builtins: HELP
--   session.rs                Server/Final: `finalize`; Server/Session: `Session`
--   Server/Stable carries a property of the connection from the steps of a context through handlers
--   and rounds; Server/Turns and Server/Fuel are its two uses.
-- crates/assuan-client/src:
--   error.rs, session.rs      Client/Error, Client/Core: `SessionCore`, `classify`
--   transaction.rs            Client/Transaction: `next_event`, `Transaction`
--   inquiry.rs                Client/Inquiry: data for the server
--   client.rs, response.rs    Client/Command: `command_with`; Client/Collect: `collect_transaction`
--
-- A byte is a natural number and a byte string a list of them. A method that changes its receiver or
-- a buffer returns it after the call beside its result; `?` is the bind of `Result`. A `usize` is that
-- of the 64-bit targets, and a checked operation on it or on a `u32` tests the range. The allocator is
-- a parameter: a function that says which requests are granted.
--
-- The stream under a channel is a list of answers to its reads and one of answers to its writes, and
-- the clock a list of answers to the tests of a deadline; what the lists do not answer waits until the
-- deadline. Handlers and hooks are application code: a handler is a tree of the calls of its context,
-- which goes on with what each call returns, may change the state, may never end, and may finish, drop
-- or forget the guard of an inquiry. The semaphore's limit and the clock's range are parameters.
--
-- Loops are recursions on their input, or on a bound that is enough: the decimal loops have a round
-- for each place of their array, the expression parser one for each byte of the input, the
-- measurement one more than the limit of nodes, and the writing loop and the copying loop two
-- for each node. The reading loop of a channel has a round for each answer of the stream. The loops
-- of a session, of an inquiry and of the client's waits have a round more than there are bytes read
-- ahead and to be read, since a round takes a line; a collection has one more than the limit on its
-- events. `stuck`, an argument of these loops, is what a loop without rounds would be.
-- `core::str::from_utf8` is modelled as the well-formedness of UTF-8.
--
-- Not modelled: `Debug` and `Display` output, `line_mut`, `SecretRef` and `PayloadRef`, the zeroing
-- of memory beyond the contents it leaves, the deadline of an inquiry apart from that of its command,
-- discovery, endpoints and listeners, the server's acceptor, the client's connections, greeting,
-- options and secret responses, and the crate for the macros.
pub mod Prelude
pub mod Protocol
pub mod Sexpr
pub mod Transport
pub mod Server
pub mod Client
