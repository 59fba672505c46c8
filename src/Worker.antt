-- ===== src/Worker.antt =====
-- services/workers/src: the settlement of released steps and the execution of tasks.
pub mod Chain
pub mod Env
pub mod Host
pub mod Execute
pub mod Settle
pub mod Jobs
pub mod Prover
pub mod Health
