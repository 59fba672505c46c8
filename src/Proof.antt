-- ===== src/Proof.antt =====
-- The proof layer: public inputs and the binding proof of packages/common/src, and the encoders
-- of packages/agent-sdk/src/payments.
pub mod Bytes
pub mod Inputs
pub mod Binding
pub mod Allowlist
pub mod Batch
