-- ===== src/Rooms.antt =====
-- server/kk_local/room_lifecycle.py, room_flow.py and seat_exchange.py: a room from waiting to the
-- battle and back, and how members leave it.
pub mod Members
pub mod Exchange
pub mod Flow
pub mod Barriers
pub mod Leave
pub mod Places
pub mod Entry
pub mod Install
pub mod Requests
pub mod Invitations
pub mod Seated
pub mod Clock
pub mod Forgotten
pub mod Election
pub mod Ticking
