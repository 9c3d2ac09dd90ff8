-- ===== src/Lib.antt =====
-- The delp forward-error-correction library: a sender keeps a sliding window of source symbols and
-- sends coded symbols, linear combinations over GF(2^4) or GF(2^8); a receiver solves for the symbols
-- that were lost and delivers all of them in order, and acknowledges them in feedback packets.
--
-- The parts and their models, with paths from the repository's root:
-- - src/gf (Gf): the log and exp tables (Gf/Tables, built by the loops of src/gf/tables.rs), the trait
--   `Field` as a record of operations (Gf/Field), its two implementations (Gf/Gf2_8, Gf/Gf2_4), and
--   the bulk operations on buffers with their scalar kernels and reference functions (Gf/Simd). The
--   kernel that the CPU selects is a parameter of the bulk operations.
-- - src/error.rs (Error): `DelpError` and results. A failed `assert!`, an index or a slice out of
--   range, and `unwrap` or `expect` on nothing are the outcome `panic`.
-- - src/config.rs (Config): the configurations and their validating builders.
-- - src/wire (Wire): the common header (Wire/Common), source, coded and feedback packets (Wire/Source,
--   Wire/Coded, Wire/Feedback), any packet (Wire/Packet), coefficient generation (Wire/Ev/CoefGen), the bit writer and reader
--   (Wire/Ev/BitField) and the formats of the source IDs in an encoding vector (Wire/Ev/IdStorage).
--   Wire/Slice holds the reads of a buffer, Wire/Layout the optional fields behind the header.
--   A coded packet holds an encoding vector (Wire/Ev), which packs its GF(2^4) coefficients by Wire/Ev/Nibbles.
-- - src/codec/encoder (Codec/Window, Codec/Encoder): the window of source symbols, and the encoder around
--   it. Codec/Encoder has the counters of coded IDs, Codec/Encoder/Policies the traits of its policies as
--   records of operations over a state, Codec/Encoder/State the encoder with `submit_source`, the ways to
--   generate a coded packet and `handle_feedback`, Codec/Encoder/Reachable a session of such calls, and
--   Codec/Encoder/Feedback what a feedback packet does under `AnyAckPolicy`.
-- - src/codec/decoder (Codec): the decoder's delivery buffer
--   (Codec/Buffer) and its decoding matrix: rows of coefficients (Codec/Dense), the elimination steps
--   (Codec/Matrix) and the two operations that recover symbols (Codec/Matrix/Recover). The proofs on
--   the matrix are about a session (Codec/Matrix/Sound): a field and the symbols that are sent. They
--   rest on the action of a field's scalars on bytes (Gf/Action), which both bulk routines implement.
-- - src/policy (Policy): acknowledgement state (Policy/AckState) and default policies
--   (Policy/Defaults). The state is updated from a feedback packet's acknowledged IDs; the window
--   policies read it and name the symbols that the encoder removes from its window.
--
-- How the model reads the code: arithmetic is that of a release build, so it wraps at the width of its
-- type (`u8`, `u32`, `usize`, the last of 64 bits) and a `debug_assert!` is not compiled;
-- what is shown of a function that makes such an assertion itself has the asserted condition. Bytes are
-- numbers, below 256 where a property needs it. An operation with `&mut self` returns the new state.
-- A `VecDeque` is a list from front to back, a `BTreeMap` an ordered association list, a `HashMap` an
-- association list, a `BTreeSet` a list of which only membership is observed.
--
-- Fuel: the loop of `drain_deliverable` and the one that advances a cumulative ACK take an entry out
-- of their collection in each round, so its size is enough fuel. The decoders of the two edge formats
-- of IDs read 8 or 4 bytes in each round, so one more than the buffer's length is enough fuel. In the
-- matrix, each round of the work queue but those of the symbols that are in it at first has taken a
-- row out, and so has each round but the last of the loop that collects solved rows: one more than the
-- number of rows is enough fuel for both. All other loops are structural.
--
-- Not modelled: the decoder around its buffer and matrix, the kernels
-- written with CPU intrinsics, the transport and the command line tool, which do input and output, and
-- all computation with floats (loss rates and the adaptive FEC rate).
pub mod Prelude
pub mod Error
pub mod Gf
pub mod Config
pub mod Wire
pub mod Codec
pub mod Policy
mod Tests
