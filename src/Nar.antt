-- ===== src/Nar.antt =====
-- src/padrino/core/engine/resolvers/nar.py: the night resolution. The children up to
-- Current are the parts of the resolver in the order of its tiers, and the others prove what it
-- promises.
pub mod Matrix
pub mod Intents
pub mod Visits
pub mod Redirects
pub mod Tiers
pub mod Reads
pub mod Night
pub mod Current
pub mod Active
pub mod Aims
pub mod Kills
pub mod Deaths
pub mod Protects
pub mod Cleans
pub mod Reveals
pub mod Blocks
pub mod VisitLog
pub mod Findings
