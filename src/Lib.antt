-- ===== src/Lib.antt =====
-- Verification library of q27, a native inference engine with its serving layer.
--
-- A request reaches the server, which renders a prompt, takes the GPU in turns with the other
-- requests, and decodes token by token. The decoded bytes run through the filters of the serving
-- layer. What is modelled here are the parts that decide which bytes are let through, and in
-- which order the requests run:
--
-- * Toolgram (src/toolgram.h, class ToolGrammar): the byte machine that says which bytes may come
--   next while the model writes a tool call. Toolgram/State has the states and the fields,
--   Toolgram/Step one function for each group of cases of `step`, Toolgram/Machine the public
--   operations. The container stack is a list whose head is `stack.back()`. Json describes the
--   legal calls as data, with a printer; Reads and its children show that the machine reads what
--   the printer writes, and Valid and Sound which states the machine can be in.
--   Toolgram/Signature is `signature`, with its snprintf calls; Toolgram/MaskCache the cache of the
--   legality masks, with both of its maps.
-- * Constrain (src/toolconstrain.h, and the constraint calls and the mask pool of src/engine.cuh):
--   the constrainer that runs the grammar along with the decoding of a request. Constrain/Engine has
--   the pool, the staged constraints and the calls of the engine, Constrain/State the fields and the
--   operations; a run is a list of calls (Constrain/Runs).
-- * Stream (src/stream_split.h, src/metal/stream_format.h, Utf8Gate of src/api_common.h): the gate
--   that keeps characters whole, with the masks of its bytes as ranges, the splitter that routes
--   the decoded text into text, reasoning and tool calls, and the buffer that ends the stream at a
--   stop sequence. The last two hold back a tail that may still grow into a marker (Stream/Holdback).
--   Splitter/Route says what the splitter is meant to do with a whole text.
-- * Tokenizer (src/tokenizer.cpp): Load is the constructor, over the bytes of the .tok file, with its
--   exceptions as values, and Load/Format what tools/export_tokenizer.py writes; Bytemap the two
--   byte maps, Pretok the pretokenizer over the rest of the text, with one function for each case
--   of its loop, Bpe the merges and the decoding, and Encode the special tokens and the chat
--   prompts. Encode/Visible says what a text shows. A map is a list of its keys.
-- * Gate (GpuGate of src/api_common.h): the ticket lock that time-slices the GPU. Its methods are
--   cut at their waits, and the threads are the steps of a relation, one critical section each; a
--   waiting thread is blocked until a notification, and that of `release` is a step of its own.
-- * Conductor (src/conductor.h, above its device part): Trim is the narrowing of the lanes' draft
--   widths, Queue the token queue between a member and its reader, Core one round with its joins,
--   its drafts and the members that leave. What a round calls of a member and of the engine is a
--   record of functions, a parameter, and so are the joins that are made while a round runs.
-- * Prefix (src/prefix_cache.h): the disk tier of the prefix cache. Keys has the hashes and the names
--   of the files, Files the directory, Cache the state and the queries, Store what writes, evicts and
--   scans. A restart is `init` over the files that a process leaves.
-- * PrefixRam (src/prefix_ram.h): the tier of the prefix cache in pinned host memory. Longest is about
--   the scan of `find`, Contents about the list, Slots about the allocations.
-- * Depth (src/depthctl.h): the controller of the draft depth. Its settings are a record of their
--   own, and the floating-point numbers are a parameter, of which no law is used.
-- * Suffix (src/suffixdraft.h): drafts tokens by the longest suffix of the stream that occurred
--   before. The map from hashes to positions is an association list, and the loop that extends a
--   match has as many rounds as its cap leaves.
-- * Evict (src/metal/snapshot_evict.h): which stored snapshots are spines, and the order in which
--   snapshots are evicted.
-- * Snapshots (src/metal/disk_snapshot_store.h): the snapshot store of the Metal backend. Match and
--   Scan are about its lookup, Eviction has the loop that brings it back to its budget, in the order
--   of Evict. Its maps are functions, and the file system and the peek are arguments.
-- * StripCtrl (src/strip_ctrl.h): removes role delimiters from untrusted text.
--
-- Prelude has the list and string functions that these parts share, with `find` and `starts_with`
-- for `std::string::find` and `compare`.
--
-- Bytes are natural numbers; the source's `unsigned char` never leaves the range that it is given
-- in. Positions are natural numbers with `none` for `npos`. Loops without a bound of their own
-- carry fuel: the removal loop of StripCtrl and the round loop of the splitter get one more than
-- the length of the text, and each round that goes on erases a marker, which is not empty. The
-- loops of the tokenizer get the length of their text, or of their list of parts. The
-- counters of the gate wrap around as `uint64_t` does, and the runs that are looked at draw fewer
-- than 2 ^ 64 tickets, more than a server lives to see.
--
-- A legality mask is the list of its bits, and a map is the list of its pairs. The trimming loop has
-- the sum of the widths as fuel, since each round narrows a lane, and printing a number n + 1 rounds
-- for its digits. The file system is the list of the directory's files by path, in which a file is
-- what the cache reads of it; how the system calls end, and the time, are arguments.
--
-- Not modelled are the GPU code and its floating-point numerics, the HTTP handlers, what only
-- calls the JSON library, and the device part of the conductor. Locks and detached threads of the
-- prefix cache are left out, and so is its prefetch, which only reads files.
pub mod Prelude
pub mod StripCtrl
pub mod Toolgram
pub mod Constrain
pub mod Prefix
pub mod PrefixRam
pub mod Conductor
pub mod Snapshots
pub mod Stream
pub mod Gate
pub mod Depth
pub mod Evict
pub mod Tokenizer
pub mod Suffix
