-- ===== src/Examples.antt =====
-- Concrete games on which the theorems are applied: a table of nine seats, nights, votes and logs; and
-- sealed logs, deals, views, schedules and a mixed table.
pub mod Table
pub mod Nights
pub mod Wrappers
pub mod Votes
pub mod Logs
pub mod Verdicts
pub mod Chains
pub mod Dealing
pub mod Schedules
pub mod Views
pub mod Tables
pub mod Claims
