-- ===== src/Runtime.antt =====
-- `AgentRuntime` (src/agents/runtime.py) over the Postgres state tables.
pub mod State
pub mod Boot
pub mod Iteration
pub mod Loop
pub mod Names
pub mod Reports
pub mod KillSwitch
mod Stored
mod Onward
mod Ends
mod Restart
mod Outcomes
mod Tests
