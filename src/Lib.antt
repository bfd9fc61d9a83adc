-- ===== src/Lib.antt =====
-- Foldback records hashes of a game's simulation state per tick and peer, writes them to a
-- `.foldback` file, and finds the first tick at which the peers differ.
--
-- Parts, and the files that model them:
--   * Prelude: the names of the libraries, lists over native numbers, little-endian bytes, UTF-8,
--     orders, `BTreeMap` as an ascending list of entries (OrdMap) and sorting (Sort).
--   * Error, Action, Io: crates/foldback-core/src/error.rs, and the parts of `std::io` that the code
--     uses. A method on `&mut self` that can fail is an `Action`: it returns its result with the
--     state that it leaves. A reader holds the bytes to come and how they end; a writer holds the
--     bytes handed over and a plan of which later calls fail. A `BufWriter` is such a writer: what
--     it hands over is counted as written, and an error of a later flush is one of the plan.
--   * Ring, Ring/Window: crates/foldback-core/src/ring_buffer.rs, `RingBuffer`.
--   * Format: crates/foldback-core/src/format.rs. Header (`Header::write_to`, `read_from`), Frame
--     (`Frame::encode_payload`, `write_to`), Decode (`Cursor`, `Frame::decode_payload`), Stream
--     (`FrameReader::next_frame` and the loop over it), with their laws in Header/RoundTrip,
--     Decode/Reads, Decode/RoundTrip, Stream/Rounds, Stream/Passes, Stream/Chunks and
--     Stream/Recovery.
--   * Bisect: crates/foldback-core/src/bisect.rs; Bisect/Reports says what the table of reports
--     holds, Bisect/First what the search finds.
--   * Schema, Schema/Drift: crates/foldback-core/src/schema.rs.
--   * Session: crates/foldback-core/src/session.rs, `SessionBuilder` and `Session`. Session/Calls
--     models any sequence of calls, Session/Builder the setters; Reports, Divergence, Once,
--     Pending, Frames and Recording hold the laws of the table, of `check_divergence`, of the queue
--     and of the recorded file.
--   * Cli: crates/foldback-cli/src/main.rs and report.rs; Cli/Counts and Cli/Exit hold the laws of
--     the report and of the exit codes, Cli/Online sets the check of a session beside the analysis of
--     its recording.
--   * Ui, Ui/Agreement: crates/foldback-ui/src/session.rs, `load`, beside the command line's
--     `analyze`.
--   * Ggrs, Ggrs/Desync: crates/foldback-rs/src/ggrs.rs.
--   * Ffi: crates/foldback-sys/src/lib.rs. Ffi and Ffi/Codes model what the entry points share,
--     Ffi/Create, Ffi/Entry and Ffi/Out the entry points; Ffi/Arguments says
--     what a caller's pointers stand for, apart from the code; Ffi/Requests models sequences of
--     calls on one handle, and Refinement, Errors and Buffers hold their laws. A pointer is none or what it
--     points to.
--   * Bevy: crates/foldback-rs/src/bevy.rs, `hash_reflected` and its walk (Bevy, Bevy/Walk) over values
--     as the crate bevy_reflect shows them. Bevy/Leaves says what a value holds, without a session;
--     Records, Walked and Recorded hold the laws of what is recorded, Fit and Depth those of the
--     depth limit, and Order those of unordered containers.
--   * Hashable, Hashable/Order: crates/foldback-core/src/hashable.rs, the bytes of a field's value.
--   * Syn: Rust items as the crate syn shows them, the input of the next two.
--   * Derive: crates/foldback-derive/src/lib.rs, the macro and the method that it generates
--     (`Session::hash_fields` calls it); Derive/Marked and Derive/Hashed hold their laws.
--   * Lint: crates/foldback-cli/src/lint.rs and `run_lint` of main.rs; Lint/Agreement sets the
--     scanner beside the macro, Lint/Carries says which structs carry the derive, Lint/Collect
--     which of them a file gives, and Lint/Listed what a scan lists.
--   * Live: crates/foldback-core/src/live.rs, the server of the live mode as a sequence of events;
--     Ui/Live: crates/foldback-ui/src/live.rs and `frame_to_live_event`, the viewer's end.
--     Live/Sockets and Live/Account say what becomes of each frame, Live/Drain how the server ends, Live/Viewer and
--     Live/Shown what a viewer on one of its sockets shows.
--   * Godot, Godot/Walk: crates/foldback-godot/src/reflection.rs, `hash_reflected` over a heap of
--     objects. Walk/Termination shows that the recursion ends, Walk/Cycles that the set of visited
--     objects is restored, Walk/Graph and Walk/Acyclic what a success says of the graph.
--   * Godot/Class: crates/foldback-godot/src/lib.rs, the class `FoldbackSession`; Class/Calls sets
--     sequences of its calls beside those of the session.
--   * The files named Tests hold small inputs on which the definitions run and the laws are applied.
--
-- The session writes through Frame to a writer; the command line reads the same bytes back through
-- Stream and hands the tick hashes to Bisect; the session's own check scans the same table.
--
-- Bounds and fuel: machine integers are numbers, with the casts of the code written out
-- (`as u32` is `% 2 ^ 32`) and their ranges as hypotheses where a law needs them. The recursion of
-- `next_frame` and the loop over frames run on fuel, one more than the bytes that are left; each
-- pass takes five bytes or stops, so that the fuel never runs out (Stream/Rounds,
-- Stream/Passes). The walk over Godot objects has fuel for ten levels, one more than the depth limit
-- lets it enter.
--
-- Not modelled: the hash function of the crate xxhash-rust, the opening of files and the names of
-- paths, the crates walkdir, syn, tungstenite and serde_json, which are parameters; the text that the
-- command line prints and its argument parser; snapshots, which the crate zstd
-- compresses, and the panel of the Bevy adapter.
pub mod Prelude
pub mod Error
pub mod Action
pub mod Io
pub mod Bisect
pub mod Schema
pub mod Session
pub mod Ring
pub mod Format
pub mod Cli
pub mod Ui
pub mod Ggrs
pub mod Ffi
pub mod Bevy
pub mod Live
pub mod Godot
pub mod Hashable
pub mod Lint
pub mod Derive
pub mod Syn
