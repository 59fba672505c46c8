-- ===== src/Store.antt =====
-- The rows of packages/db/prisma/schema.prisma that the workers and the API read and write, and
-- the world that they act on: the tables, the queued jobs, the clock and the vault's state.
-- Row ids, addresses and hashes are only compared, so they are numbers. Amounts are
-- Decimal(20,7) columns: the model counts them in stroops, 10,000,000 to the USDC.
pub mod Rows
pub mod Tables
