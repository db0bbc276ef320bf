-- ===== src/Wire.antt =====
-- The protobuf primitives of src/pprof.rs: `Encode` and `Decode` hold the code, `Emit` what the
-- encoders write as a list of fields, `RoundTrip` and `Total` the proofs about the decoder's loop.
-- A byte slice is a list of numbers; an index into it is a count of bytes and the list that is left.
pub mod Encode
pub mod Decode
pub mod Varint
pub mod Emit
pub mod RoundTrip
pub mod Codec
pub mod Packed
pub mod Total
