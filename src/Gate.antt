-- ===== src/Gate.antt =====
-- Framework/game_gate: the tables that the gate server keeps of its connections. A connection is a
-- number. A weak pointer is `none` if it was never set; `lock` gives the connection while it lives.
-- Which connections live, and the session that the context of each holds, is the world, an argument
-- of each operation. Each operation runs under the lock of its table, so it is one step.
pub mod Entities
pub mod Users
pub mod Sessions
pub mod Repair
pub mod World
pub mod Buckets
pub mod Workers
pub mod Context
