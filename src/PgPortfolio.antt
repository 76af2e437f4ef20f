-- ===== src/PgPortfolio.antt =====
-- `PostgresPortfolioStore` (src/portfolio/postgres_store.py): the portfolio in three tables. The
-- mirror file repeats what a call has just read: of it there is only whether its write raises.
pub mod Tables
pub mod Store
pub mod Loading
mod Rows
pub mod Inserts
mod Agrees
mod Refinement
mod Unique
mod Snapshot
mod Once
mod Bulk
mod Start
mod Tests
