-- ===== src/Battle.antt =====
-- The battle messages of the shared rooms: server/kk_local/layouts.py and battle_*.py.
pub mod Event
pub mod Decode
pub mod Outcome
pub mod Receipts
pub mod Deaths
pub mod Hits
pub mod Pairs
pub mod Reborn
pub mod Relay
pub mod SeriesFlow
pub mod Results
pub mod Handler
pub mod Dispatch
pub mod Delivery
pub mod Once
pub mod Authority
pub mod Isolation
pub mod Projectiles
pub mod Spending
