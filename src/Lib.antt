-- ===== src/Lib.antt =====
-- IntelNav runs one large language model on several peers. A driver holds the first layers and the
-- head; a chain of peers holds the rest, each a slice of layers. The driver discovers the peers in a
-- swarm, opens a session with each, and pushes activations through them for every step of decoding;
-- a speculative mode lets a small draft model propose tokens that one pass of the chain verifies. A
-- peer's daemon keeps a table of the slices that it hosts, serves sessions on them, announces them,
-- and lets its user join and leave slices while chains are attached. Models are GGUF files.
--
-- The files and what they model (paths from the repository's root):
-- Base: numbers, lists, results, maps as association lists, integers as bytes. No code of its own.
-- Types: crates/core/src/types.rs and tier.rs.
-- Wire: crates/wire/src/lib.rs (encode_frame, decode_frame) and the read loops of
--   crates/runtime/src/chain.rs and crates/app/src/forward_server.rs, over sockets whose reads cut the
--   stream anywhere. Framing has the round trips.
-- Control: crates/app/src/control.rs. ControlState, its methods, ChainGuard, and dispatch keep their
--   names. Entries says what each method does to each slice; Lifecycle, Chains, Drain and ForceStop are
--   about histories of calls.
-- Daemon: crates/app/src/swarm_node.rs (the announce loop as announce_tick, the watchdog as
--   watchdog_tick) and the sidecars of contribute.rs.
-- Decode: the passes and run_turn of crates/runtime/src/chain.rs, with the sampler of Sample at
--   temperature zero.
-- Sample: crates/runtime/src/sample.rs at temperature zero, with the repeat penalty, and argmax_last of
--   crates/ggml/src/hidden.rs.
-- Spec: crates/runtime/src/spec.rs. run_turn_spec's loop is rounds; its numbered steps are
--   verify_round, emit and advance_round.
-- Chain: Chain::connect of crates/runtime/src/chain.rs; Chain/Swarm: from_swarm, failover and
--   connect_with_failover of crates/app/src/chain_driver.rs, about which are Picks and Failover.
--   Chain/Hops: the loop of step_with_truncate over the wire, as step_links; Serving and Relay put the
--   server of Forward behind each link, Counting is about the numbers of the requests.
-- Codec: encode_hidden_with and decode_hidden of crates/ggml/src/hidden.rs. Chain and Forward take any
--   codec.
-- Discovery: crates/net/src/swarm_index.rs (SwarmModel, refresh_one, gaps, fully_served).
-- Forward: crates/app/src/forward_server.rs. handle_connection is a loop over handle_msg;
--   prepare_slice keeps its name. Guards reads connections as the chain events of Control/Chains.
-- Gguf: crates/model-store/src/gguf.rs. Gguf::open is open_file of Gguf/Header.
-- Store: crates/model-store/src/manifest.rs, bundle.rs, chunker.rs and stitch.rs. Bundle, Chunker and Emit
--   model chunk_gguf (route, emit_bundles, finish are its parts), Verify models verify_chunks; Select and
--   Layout have the parts of Stitch's stitch_subset: the tensors kept, and the bytes of the new file.
--   The other files there are about these: Names about the names of bundles and tensors, Routing about
--   the bundles, Members, Written and Verified about what is written and verified, Rewrite, Metadata,
--   Index, Preamble, Reopen, Kept and Stitched about the new file when it is opened, Drift about the
--   offsets in it. Gguf/Shift and Gguf/Reads say where a read gives what was written.
-- Tests: concrete runs.
--
-- State is passed on explicitly. What a Mutex guards is one step; concurrent tasks are sequences of
-- such steps in any order. A KV cache is the list of tokens that it covers, and a pass whose position
-- does not match its cache is an error.
-- A connection of the server keeps the key of a model in the shared cache, as the source keeps
-- a shared pointer.
--
-- Numbers are unbounded where the source cannot overflow; elsewhere the wrap-around of a release
-- build is written out (LayerRange.len, the u32 counters, the 64-bit positions of the parser).
--
-- Fuel: decode_loop and rounds take max_new_tokens + 1, as each turn of the loop generates a token;
-- connect_attempts takes one more than the failover limit, as the loop gives up behind the limit.
-- read_all reads messages up to a given number.
--
-- Parameters: libllama (a model is a function from tokens to logits, of which there is at
-- least one, or an opaque handle), the CBOR library (what it writes reads back), floating point, and the network (what a peer answers).
--
-- Not modelled: sampling above temperature zero, tokenising, terminal interface, libp2p, transfer of
-- chunks, cryptography, service management, and errors of the file system. SHA-256, the
-- form of a CID and JSON are parameters of Store; the CIDs of bytes may collide in the model, and
-- what is claimed of them says so.
pub mod Base
pub mod Chain
pub mod Codec
pub mod Control
pub mod Daemon
pub mod Decode
pub mod Discovery
pub mod Forward
pub mod Gguf
pub mod Sample
pub mod Spec
pub mod Store
pub mod Tests
pub mod Types
pub mod Wire
