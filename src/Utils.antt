-- ===== src/Utils.antt =====
-- utils/: addresses and signatures, what the bytes of a number are, and the hex spelling of addresses.
pub mod Key
pub mod Bytes
pub mod Hex
mod Tests
