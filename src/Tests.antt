-- ===== src/Tests.antt =====
-- Concrete rooms, engines and messages, and the theorems applied to them.
mod Data
mod Battle
mod Isolation
mod Parts
mod Settlement
mod Seats
mod Rooms
mod Wire
mod Clock
mod Weapons
