-- ===== src/Lib.antt =====
-- The local server of the game (server/kk_local): rooms, their battle relay, and the accounts of
-- bytes that it keeps. A client's engine handles the messages of one connection; the engines share a
-- hub with its rooms, and a room hands battle messages on between its members.
--
-- Base: names, lists, dictionaries (insertion order), bytes, and the monad of handlers that raise.
-- Budget: public_policy.py, class MemoryBudget. Leases: its classes Lease and ConnectionBudget.
-- Wire: wire.py, the frames of game messages (Wire/Frames): `blocks`, `encode_game` and
--   `GameDecoder.feed`, whose loop has the length of its buffer as fuel; a frame takes 24 bytes at
--   least, and Wire/Stream shows that more fuel changes nothing.
-- Series: team_series.py, the tracking of team series (Series/Rounds for one message, Series/Replay and
--   Series/Final for a run of messages).
-- Hub: the records of rooms.py and engine.py (Hub/State) and the message queues (Hub/Queue).
-- Battle: battle_relay.py, battle_receipts.py, battle_pairs.py, the series part of
--   battle_results.py, decode_battle of layouts.py, and what these use of combat_catalog.py.
--   Battle/Handler is `handle`, Battle/Dispatch is `dispatch_public`, Battle/Decode is
--   decode_battle; Battle/Relay is the part of `handle` that is no handler of its own.
-- Settlement: lab_settlement.py, the reports of a match (Settlement), what they agree on
--   (Settlement/Consensus) and the message of the result (Settlement/Payload). Battle/Results is
--   handle_lab_result of battle_results.py; its state is the hub with the durable grants so far.
-- Rooms: seat_exchange.py (Rooms/Exchange), room_flow.py (Rooms/Flow from readiness to the start,
--   Rooms/Barriers from there on), room_lifecycle.py (Rooms/Leave; Rooms/Entry and Rooms/Install for
--   entering and coming back, with `toggle_spectator` of room_flow.py), room_requests.py
--   (Rooms/Requests, Rooms/Invitations), position_key and observer_limit of rooms.py (Rooms/Places),
--   and poll_battle_clock of engine.py (Rooms/Clock). The operations name the room and change it in
--   the hub. Rooms/Seated shows that they keep the fighters in distinct slots.
-- Weapons: weapon_upgrade.py, the rules of weapon upgrades and an attempt at one. The database rows
--   that it reads and writes are the fields of Tables, and the roll of the dice is an argument.
-- Tests: the theorems at concrete rooms.
--
-- An object that the source shares by reference is named by its key: an engine by its account, a
-- room by its number, a connection by its number. A handler of a battle message is split into a
-- decision (Battle/Outcome: refuse, pass over, record as unknown, relay) and `perform`, which carries
-- it out; no handler changes the room before its last check, but for the lapsed selection of
-- battle_pairs.py, which goes with the room of `unknown`. Where the source reads -1 for a missing
-- sequence number, any number is fresh. Clocks are milliseconds, a field of an engine. Floats are
-- raw words, of which only finiteness, sign and zero are read. Of packets.py only what
-- starts a match is modelled; its other builders, the names and profiles of the SQLite store and the
-- notices of chat.py are parameters (RoomPackets of Rooms/Places, Store of Battle/Results). Rooms
-- with a stage battle (`room.pve`, modes 10 and 21) are not modelled; their lines are left out
-- where they stand among others, and a room of mode 10 stays at its first barrier, as it does
-- without one. Nor are the final report of a team series (4111, 4112), publishing a weapon table
-- and the handler around an attempt, the accounts, shops, quests and mail, the menus, and the
-- sockets. Signed words are taken in biased form where they are compared. The notice of a lapsed
-- probe is a parameter, a message.
pub mod Base
pub mod Budget
pub mod Leases
pub mod Wire
pub mod Series
pub mod Hub
pub mod Battle
pub mod Rooms
pub mod Settlement
pub mod Weapons
pub mod Tests
