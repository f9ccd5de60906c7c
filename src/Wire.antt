-- ===== src/Wire.antt =====
-- src/wire_frame.rs: the wire format of frames. `Wire/Encode` and `Wire/Decode` hold the code.
pub mod Encode
pub mod Decode
pub mod Layout
pub mod Reads
pub mod RoundTrip
pub mod Refusals
pub mod Takes
pub mod Faults
