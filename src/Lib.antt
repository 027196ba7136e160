-- ===== src/Lib.antt =====
-- LightBridge is an inference engine that runs a mixture-of-experts model from disk in bounded
-- memory. This library models the parts that its results rest on, and proves what makes them right.
--
-- The parts and how they interact. Tensors are described by their GGML type and shape
-- (crates/bridge-core); scratch memory comes from a bump arena (crates/bridge-core). The weights of
-- an expert stand in a sidecar file whose manifest gives the place of each (crates/bridge-format); a
-- sidecar is read through bounded positioned reads (crates/bridge-io-windows), and the compressed
-- bytes are kept in a cache that many callers share (crates/bridge-cache). The keys and values of the
-- tokens that a session has seen are kept in pages, which a snapshot saves (crates/bridge-kv-gqa),
-- and each token is routed to the experts with the highest scores (crates/bridge-model-hy3).
-- Tokens are generated in
-- sessions of a model, with a sampler, until a limit, a stop token or the caller ends it
-- (crates/bridge-runtime).
--
-- The files. `Base` has the names, lists, maps and machine words that the others share. A map is an
-- association list in an order of iteration.
--   Core/GgmlType, Core/Tensor, Core/Arena: crates/bridge-core/src/ggml_type.rs, tensor.rs and
--     arena.rs, one definition for each function; `Core/Error` is error.rs.
--   Cache: crates/bridge-cache/src/lib.rs. `Types` is its data, `Reserve` is `reserve_capacity`,
--     `Leases` has `get`, the two critical sections of `get_or_try_insert` (`request`, `finish`) and
--     the two `drop`s (`release`, `cancel`), `Clear` has `clear_unpinned` and `stats`,
--     `Heat` is the export and import of heat, what they do in `Heat/Exports`, `Heat/Imports` and
--     `Heat/RoundTrip`; `System` adds the callers, and a list of events is an
--     interleaving of critical sections. An import of heat is no event of these: it writes the heat
--     only, and no entry, lease or counter of bytes depends on that.
--   Io: crates/bridge-io-windows/src/lib.rs. The platform's read and the flag are parameters.
--   Sidecar: crates/bridge-format/src/lib.rs. `Header` and `Manifest` are the two structures,
--     `Reader` opens a sidecar and reads an expert, `Hash` is `verify_data_hash`.
--   Generation: crates/bridge-runtime/src/generation.rs, with the configuration of sampling.rs in
--     `Generation/Sampling`; `Loops` has `generate_stream`; `Poisoning` is
--     what the calls after a failed one answer.
--   Kv: crates/bridge-kv-gqa/src/cache.rs, with the errors and the data in `Types`. `Pages` makes a
--     cache and allocates pages, `Rows` has `append_tokens`, `key`, `value`, `reset` and
--     `rewind_all`; where the keys and the values are treated alike, one definition takes the part.
--     `Snapshots/Export` and `Snapshots/Restore` have the snapshots. `Views` is what a valid cache is,
--     and the flat list of rows that it shows; `Histories` has calls on flat lists. The other modules
--     hold the lemmas of their names.
--   Routing: crates/bridge-model-hy3/src/routing.rs. `Order` is how candidates rank, `Shares` what the
--     selected ones weigh, `Selection` what `route_experts_into` selects; its sorts are `Base/Sorting`.
--   Tests: concrete runs, and every theorem of the list below at a concrete input.
--
-- Bounds. Words are 64 bits wide, also `usize`, so conversions between the two never fail and are
-- left out; checked and saturating operations are written out. The loop of `reserve_capacity` runs
-- on the number of entries and one more: each round but the last evicts one. The loop of a read runs
-- on the size of its buffer, and that of a hash on the length of the file: each round but the last
-- reads a byte. The binary search runs on the number of records and one more, since each round makes
-- the range smaller. The other loops follow a list or a count of rounds. An `f32` of the paged cache
-- and of the routing is the word of its 32 bits, with its arithmetic as a parameter. An index or a
-- slice of the cache that is out of bounds is the fault `panicked`, apart from the errors that are
-- returned.
--
-- What is not modelled. A poisoned mutex, which only a panic brings about, and a loader that
-- panics; the wake-ups of waiting callers, who start over with a new request; a moment between the
-- failure of a load's second critical section and the drop of its reservation, which are one event;
-- durations and clocks; paths in errors. The system's allocator, the JSON parser and printer, the
-- SHA-256 hasher, the model and the sampler are parameters. What the allocator answers depends on the
-- field and the size alone, so during a call an allocation that succeeded for one page succeeds for
-- the next of that size. The draw of a token, the GGUF reader,
-- the tokenizer, the schema of the model and the chat engine are not part of the library, and neither
-- are the floating-point kernels, the server and the command line.
pub mod Base
pub mod Core
pub mod Cache
pub mod Io
pub mod Sidecar
pub mod Kv
pub mod Routing
pub mod Generation
pub mod Tests
