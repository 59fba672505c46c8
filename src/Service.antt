-- ===== src/Service.antt =====
-- packages/common/src/service-verify.ts: what a service declares, and the checks of a delivery.
pub mod Js
pub mod Verify
