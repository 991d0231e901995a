-- ===== src/Nuts.antt =====
-- cashu/nuts: the states of quotes and proofs, well-known secrets and the spending conditions.
pub mod States
pub mod Secrets
pub mod Tags
pub mod Signatures
pub mod Conditions
pub mod Dleq
