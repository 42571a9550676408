-- ===== src/Lib.antt =====
-- A model of the core of Agentic File Transfer (`aft`): the AFTP wire protocol, the state that the
-- AFTP server keeps across connections, the multiplexing of streams over one connection, the
-- fountain-coded (FEC) data plane, and the filters of directory sync.
--
-- An AFTP connection carries frames: a header of ten bytes and a payload, whose layout depends on
-- the frame type. Control frames open, authenticate and resume a session and announce files; an FEC
-- transfer is offered and steered by such frames, and its blocks travel as datagrams, each an
-- envelope around a RaptorQ symbol, sealed with AES-256-GCM or guarded by a checksum. The server
-- bounds failed logins by address and remembers sessions for clients that come back. Over one
-- connection many streams can run: frames of the multiplexer carry the frames of each stream, and
-- the reader at either end hands them to the stream's channel.
--
-- Files:
-- - Base: the shared notation. Numbers are native naturals; a word of the source is a number with
--   its bound as a hypothesis, or with the cast written out as `% 2 ^ w`. Bytes and texts are lists
--   of numbers, a `String` being its UTF-8 bytes. Base/Outcome has `AftError` of src/error.rs, with
--   each message as a constructor that carries the values printed into it; Base/Table has `HashMap`
--   as an association list.
-- - Frame/Constants, Frame/Types, Frame/Wire, Frame/Io, Frame/Payload, Frame/Assembler:
--   src/aftp/frame.rs. A parser is a function of the payload and the offset; a builder returns none
--   where the source panics on a text longer than 65,535 bytes. A connection is the bytes it will
--   deliver and the way it ends, for `read_frame`, or the list of what single reads get, for
--   `FrameAssembler`. Frame/Reader and Frame/Utf8 have the lemmas on parsers and on
--   `String::from_utf8_lossy`. Frame/RoundTrip, Frame/Exchange and Frame/Assembly have the proofs.
-- - Server/RateLimit and Server/Sessions: `AuthRateLimiter` and `SessionStore` of
--   src/aftp/server.rs; the proofs are in Server/Tally, Server/Lockout and Server/Resume. Each method
--   takes the time, in nanoseconds, as an argument, and reads it once.
-- - Server/Effects, Texts, Negotiation, Handshake and Connection: the handshakes and the request loop
--   of src/aftp/server.rs. A step of a handler takes the connection and the shared state and ends
--   with a value, an error or a panic; the random values, the clock and HMAC-SHA256 come from
--   outside, and the handlers of the requests are a record of functions. Agreeing, Proving,
--   Admission and Unlimited have the proofs.
-- - Server/Rooted: `safe_path` of src/aftp/server.rs, on lists of components as on Unix, with what
--   exists and where it leads to as a parameter. Dotless and Enclosed have the proofs.
-- - Fec/Codec, Fec/Encoder, Fec/Symcrypto, Fec/Envelope: codec.rs, symcrypto.rs and envelope.rs of
--   src/aftp/fec; the proofs are in Fec/Layout, Fec/Parameters, Fec/Secrecy and Fec/Delivery.
--   Fec/Paths is the path check of manifest.rs, and Fec/Containment its proof. The RaptorQ library
--   is a parameter; only Fec/Transfer assumes something of it. AES-256-GCM is a parameter that
--   opens what it sealed and adds sixteen bytes; CRC32 and the random nonce are parameters with no
--   assumption.
-- - Fec/Manifest/Merkle, Codec, Build, Packed, Unpack and Unpacking: the entries, the Merkle tree and
--   the wire form of manifests, their making from what a walk over a directory found, the packed
--   stream and its unpacking, src/aftp/fec/manifest.rs. SHA-256 is a parameter. The sender's files are
--   a function from paths to contents. Fec/Manifest/Destination has the destination, a table from
--   relative paths to contents and the directories that were made, and the answers of its file
--   system, which may refuse each call; Fec/Manifest/Unpacking has `unpack_tree` over them. The proofs
--   are in the other files of Fec/Manifest; Shipped puts them together.
-- - Fec/Transfer/Blocks and Fec/Transfer/Receiver: the receiving side of src/aftp/fec/transfer.rs.
--   The loop `recv_object_into` runs on a list of arrivals, each the outcome of one awaited
--   `recv_symbol` or the end of the patience, with the time on the clock, which a round reads once;
--   when the list ends the loop waits. Fec/Transfer/Channel is its channel of feedback: a parameter
--   tells whether the far side lets one more message through, and where it does not, the loop waits.
--   Fec/Transfer/Fountain and Fec/Transfer/Potential state what is assumed of RaptorQ, as records;
--   Counting, Regions, Serving, Settling, Reassembly, Window, Weights, Nearing, Totality, Flowing,
--   Liveness and Repair have the proofs.
-- - Fec/Sender/Line, Answering and Loop: the sending side of src/aftp/fec/transfer.rs. The pacer and
--   the loss estimate, the sink and the reader of blocks are a record of operations about which
--   nothing is assumed. The feedback is a list with marks for the moments at which `try_recv` finds
--   nothing; its end is the closed channel. Ledger, Turns, Finishing and Outcome have the proofs.
-- - Mux/Channels, Mux/Session and Mux/Serving: src/aftp/mux.rs. A channel is a numbered queue, whose
--   sending end the table of streams holds; Mux/Link is the step relation of a session, its peer
--   and the tasks that use its streams. Routing, Holding, Carrying, Fifo, Ids, Ending, Numbered and Opening
--   have the proofs.
-- - Sync/Glob and Sync/Filter: the glob patterns, filters, comparison of files and URL helpers of
--   src/sync.rs; the proofs are in Sync/Matching and Sync/Deciding. Where the source moves an index
--   into the pattern or the text, the model passes on the rest of the list.
-- - Examples: the theorems at concrete inputs.
--
-- Fuel: `assemble` calls `next_frame` at most as often as it has fuel; one call more than the frame
-- has bytes is enough, since every call takes a byte. Eviction from the session store has a round
-- for every entry, and every round removes one. Glob matching has a round for every character of
-- the pattern and one more, and every round takes a character. The Merkle tree has a level for
-- every entry at most, and every level has fewer hashes than the one before. UTF-8 decoding has a
-- step for every byte, and every step takes one. A file is unpacked with a round for every byte,
-- and every round takes one at least. `reader_loop` has a turn for every frame, and a frame takes a
-- byte at least. `send_blocks` has a turn for every block and every message of feedback.
-- The request loop serves as many frames as it has fuel before the idle timeout ends it.
--
-- Not modelled: the handlers of requests of server.rs, the failure of a write to the connection, log
-- lines, client.rs, TLS and QUIC transports, the walk over a directory and the modes of its files, the
-- making of the destination's root and the opening of the packed file; the pacing of an FEC transfer
-- and its loss estimate, which are floating-point; the run of a sync; the other protocols, the ciphers
-- and post-quantum key exchange, the command line, configuration, history, telemetry and output, which
-- are input and output around libraries.
pub mod Base
pub mod Frame
pub mod Server
pub mod Fec
pub mod Sync
pub mod Mux
pub mod Examples
