-- ===== src/Rooms/Members.antt =====
-- What the operations of a waiting room share: reading and changing a room that the hub holds, the
-- phases of its members' connections, and the readiness notices.
use kungfukid_local_server.Base.{
  ℕ, Bool, true, false, not, ◌&&◌, Option, none, some, List, [], ◌∷◌, ltb, leb, ◌==◌, if◌then◌else◌,
  nat_eq,
}
use kungfukid_local_server.Base.Bytes.{Bytes, to_le, bytes_eq}
use kungfukid_local_server.Base.Dict.{Dict, lookup, insert}
use kungfukid_local_server.Base.Exec.{ok, raised, pure, or_raise, modify, for_each, ◌>>◌}
use kungfukid_local_server.Wire.{Message}
use kungfukid_local_server.Hub.{
  Hub, Action, Room, Member, Engine, Phase, StartIdentity, broadcast, engine_of,
}

abbrev pub room_at : ℕ → Action Room
room_at n h = or_raise (lookup n h.rooms) "room" h

abbrev pub change_room : ℕ → (Room → Room) → Hub → Hub
change_room n f h = elim (lookup n h.rooms) [
  | none ↦ h
  | some r ↦ record h { rooms = insert n (f r) h.rooms }
]

abbrev pub change_engine : ℕ → (Engine → Engine) → Hub → Hub
change_engine uid f h = elim (lookup uid h.engines) [
  | none ↦ h
  | some e ↦ record h { engines = insert uid (f e) h.engines }
]

abbrev pub change_member : ℕ → (Member → Member) → Room → Room
change_member uid f r = elim (lookup uid r.members) [
  | none ↦ r
  | some m ↦ record r { members = insert uid (f m) r.members }
]

-- `m.engine.game.phase = phase`; with no connection this is no ProtocolError
abbrev pub set_phase : Phase → ℕ → Action (Unit {0})
set_phase phase uid h = elim (lookup uid h.engines) [
  | none ↦ (raised "no engine", h)
  | some e ↦ elim e.game [
    | none ↦ (raised "no connection", h)
    | some g ↦ (
      ok tt,
      record h {
        engines = insert uid (record e { game = some (record g { phase = phase }) }) h.engines;
      },
    )
  ]
]

-- `if engine.game: engine.game.phase = phase`
abbrev pub set_phase_if_any : Phase → Engine → Engine
set_phase_if_any phase e = elim e.game [
  | none ↦ e
  | some g ↦ record e { game = some (record g { phase = phase }) }
]

-- `room.members[room.owner].engine.clock()`
abbrev pub owner_clock : Room → Action ℕ
owner_clock r h = elim (lookup r.owner r.members) [
  | none ↦ (raised "no owner", h)
  | some m ↦ elim (engine_of m.engine h) [
    | none ↦ (raised "no engine", h)
    | some e ↦ (ok e.clock, h)
  ]
]

-- `engine.p2p_alive()`
abbrev pub p2p_alive : Engine → Bool
p2p_alive e = elim e.p2p [ none ↦ false | some lease ↦ leb e.clock lease.expires ]

abbrev pub message : ℕ → Bytes → Message
message id payload = record { id = id; payload = payload }

-- `Message(id, struct.pack('<Q', uid))`
abbrev pub about : ℕ → ℕ → Message
about id uid = message id (to_le 8 uid)

-- `m.ready = False`, and the notice of it to everyone
unfoldable pub clear_ready : ℕ → Dict ℕ Member → Action (Unit {0})
clear_ready n members = for_each members λ entry.
    if entry.1.ready
    then modify (change_room n (change_member entry.0 (λ m. record m { ready = false })))
      >> broadcast members (about 4070 entry.0) none
    else pure tt

-- one row of the identity: the connection, and what of the member counts
abbrev identity_row : Hub → ℕ × Member → ℕ × Option ℕ × Member
identity_row h (uid, m) =
    let game : Option ℕ = elim (engine_of m.engine h) [
      | none ↦ none
      | some e ↦ elim e.game [ none ↦ none | some g ↦ some g.number ]
    ] in
    (uid, game, m)

abbrev insert_row :
    ℕ × Option ℕ × Member → List (ℕ × Option ℕ × Member) → List (ℕ × Option ℕ × Member)
insert_row row [] = row ∷ []
insert_row row (x ∷ xs) =
    let rest = insert_row row xs in if ltb row.0 x.0 then row ∷ (x ∷ xs) else x ∷ rest

abbrev identity_rows : Hub → Dict ℕ Member → List (ℕ × Option ℕ × Member)
identity_rows h [] = []
identity_rows h (entry ∷ members) = insert_row (identity_row h entry) (identity_rows h members)

-- `hub.start_identity(room)`
unfoldable pub start_identity : Room → Hub → StartIdentity
start_identity r h = record {
  owner = r.owner;
  request = r.request;
  rows = identity_rows h r.members;
}

abbrev same_option : Option ℕ → Option ℕ → Bool
same_option none none = true
same_option (some a) (some b) = a == b
same_option _ _ = false

abbrev same_bool : Bool → Bool → Bool
same_bool true b = b
same_bool false b = not b

abbrev same_row : ℕ × Option ℕ × Member → ℕ × Option ℕ × Member → Bool
same_row (u, g, m) (v, k, l) =
    (u == v)
    && (same_option g k
        && ((m.slot == l.slot)
            && ((m.team == l.team)
                && (same_option m.registry_key l.registry_key
                    && (same_bool m.ready l.ready && same_bool m.spectator l.spectator)))))

abbrev same_rows : List (ℕ × Option ℕ × Member) → List (ℕ × Option ℕ × Member) → Bool
same_rows [] [] = true
same_rows (x ∷ xs) (y ∷ ys) = same_row x y && same_rows xs ys
same_rows _ _ = false

-- `==` on two of them
unfoldable pub same_identity : StartIdentity → StartIdentity → Bool
same_identity a b =
    (a.owner == b.owner) && (bytes_eq a.request b.request && same_rows a.rows b.rows)
