-- ===== src/Protocol.antt =====
-- sanlight_mesh/protocol.py, with the opcodes of sanlight_mesh/constants.py: building and decoding
-- the access PDUs. Each child holds the code about one kind of message, and its proofs below it.
pub mod Bytes
pub mod Opcode
pub mod Brightness
pub mod Live
pub mod Daylight
pub mod Clock
