-- ===== src/PgBus.antt =====
-- `PostgresMessageBus` (src/agents/postgres_bus.py): its tables, the calls of one instance of the bus,
-- and the polling threads of all instances as steps over the shared tables.
pub mod Tables
pub mod Client
pub mod Poller
pub mod Progress
pub mod Rows
pub mod Invariant
pub mod Delivered
pub mod AtLeastOnce
pub mod Checkpoint
pub mod Order
mod Claims
mod Steps
mod Kept
mod Backlog
mod Tests
