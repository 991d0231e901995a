-- ===== src/Crypto.antt =====
-- crypto: the blind signatures of the protocol.
pub mod HashToCurve
pub mod Bdhke
pub mod Keyset
