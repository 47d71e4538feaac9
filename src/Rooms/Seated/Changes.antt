-- ===== src/Rooms/Seated/Changes.antt =====
-- server/kk_local/room_lifecycle.py: `install`; server/kk_local/room_flow.py: `toggle_spectator`;
-- server/kk_local/room_requests.py: changing the team and joining. They keep the fighters seated.
use mathlib.Core.Path.{subst}
use kungfukid_local_server.Base.{
  ℕ, ◌≡◌, ◌⊎◌, inl, inr, refl, sym, ap, ◌∙◌, Bool, true, false, not, ◌||◌, Option, none, some,
  nat_eq, arith, String, if◌then◌else◌, ◌==◌,
}
use kungfukid_local_server.Base.Bytes.{Bytes}
use kungfukid_local_server.Base.Dict.{lookup}
use kungfukid_local_server.Base.Exec.{ok, raised, pure, lift, modify}
use kungfukid_local_server.Base.Fallible.{ok_inj, guard-cases, bind-cases}
use kungfukid_local_server.Hub.{Hub, Room, Member, Phase, queue}
use kungfukid_local_server.Rooms.Members.{change_room, change_engine, about, message}
use kungfukid_local_server.Rooms.Leave.{drop_invites}
use kungfukid_local_server.Rooms.Places.{RoomPackets, free_slot}
use kungfukid_local_server.Rooms.Entry.{
  Entry, Peer, choose_bank, seat_in, new_member, owner_with, records, complete, prepare_entry,
}
use kungfukid_local_server.Rooms.Install.{
  placed, greet, tell_owner, welcome, seat_new, enter, install,
}
use kungfukid_local_server.Rooms.Seated.{
  IsHub, IsFresh, insert-IsSeated, change-IsHub, free_slot-IsFresh, some_inj, void,
}
use kungfukid_local_server.Rooms.Seated.Kept.{
  Ended, Kept, Keeps, hub-Ended, bind-Ended, then-Keeps, lift-Ended, queue-Keeps, set_phase-Keeps,
  change_engine-Keeps, for_each-Keeps, room_at-Keeps, clear_ready-Keeps, pure-Keeps, if-Keeps,
}

-- a member that may be put in a room: it watches, or its slot is free
abbrev pub HasPlace : ℕ → Member → Room → Type 0
HasPlace uid new r = (new.spectator ≡ true) ⊎ IsFresh new.slot uid r.members

tell_owner-Keeps : (uid : ℕ) (owner : Option ℕ) → Keeps (tell_owner uid owner)
tell_owner-Keeps uid none = pure-Keeps tt
tell_owner-Keeps uid (some owner) = queue-Keeps uid (about 3160 owner)

greet-Keeps :
    (uid : ℕ) (own : Bytes) (owner : Option ℕ) (peer : Peer) → Keeps (greet uid own owner peer)
unfolding greet
greet-Keeps uid own owner (peer_uid, (peer, raw)) =
    then-Keeps (queue uid (message 3090 raw)) _ (queue-Keeps uid _) λ _.
      then-Keeps _ _
        (if-Keeps (peer.spectator || (peer.activity == 0)) (pure tt) _ (pure-Keeps tt)
          (queue-Keeps uid _))
        λ _.
          then-Keeps (queue peer.engine (message 3090 own)) _ (queue-Keeps peer.engine _)
            λ _. tell_owner-Keeps peer.engine owner

welcome-Keeps : (n uid : ℕ) (changed : Bool) (e : Entry) → Keeps (welcome n uid changed e)
unfolding welcome
welcome-Keeps n uid changed e =
    then-Keeps (modify (change_engine uid (placed n))) _ (change_engine-Keeps uid (placed n)) λ _.
      then-Keeps _ _ (set_phase-Keeps Phase.in_room uid) λ _.
        then-Keeps _ _ (queue-Keeps uid e.entry) λ _.
          then-Keeps _ _ (queue-Keeps uid (about 3160 e.owner)) λ _.
            then-Keeps _ _
              (for_each-Keeps e.peers _
                (greet-Keeps uid e.own (if changed then some e.owner else none)))
              λ _. then-Keeps _ _ (room_at-Keeps n) λ r. clear_ready-Keeps n r.members

enter-Keeps :
    (n uid : ℕ) (changed : Bool) (e : Entry) (h : Hub)
    → IsHub h
    → ((r : Room) → lookup n h.rooms ≡ some r → HasPlace uid e.new r)
    → Ended Kept (enter n uid changed e h)
unfolding enter drop_invites
enter-Keeps n uid changed e h fine place =
    welcome-Keeps n uid changed e (change_room n (seat_new uid e) (drop_invites uid h)) (
      change-IsHub n (seat_new uid e) (drop_invites uid h)
        (λ r there. (refl, insert-IsSeated uid e.new r.members (place r there))) fine)

raised_ok {ℓ} : {A : Type ℓ} {why : String} {a : A} → raised why ≡ ok a → ⊥
raised_ok e = ground (arith, e)

bank-slot :
    (uid slot : ℕ) (key other : Option ℕ) (m : Member)
    → choose_bank uid slot key other ≡ ok m
    → m.slot ≡ slot
bank-slot uid slot (some key) other m made = ap (λ (x : Member). x.slot) (sym (ok_inj _ m made))
bank-slot uid slot none (some key) m made = ap (λ (x : Member). x.slot) (sym (ok_inj _ m made))
bank-slot uid slot none none m made = void (raised_ok made)

seat-slot : (r : Room) (uid slot : ℕ) (m : Member) → seat_in r uid slot ≡ ok m → m.slot ≡ slot
unfolding seat_in
seat-slot r uid slot m made = bank-slot uid slot _ _ m made

slot-cases :
    (r : Room) (uid : ℕ) (m : Member) (o : Option ℕ)
    → elim o [ none ↦ raised "no free slot" | some slot ↦ seat_in r uid slot ] ≡ ok m
    → (slot : ℕ) × ((o ≡ some slot) × (m.slot ≡ slot))
slot-cases r uid m none made = void (raised_ok made)
slot-cases r uid m (some slot) made = (slot, (refl, seat-slot r uid slot m made))

new-HasPlace :
    (r : Room) (uid : ℕ) (spectator : Bool) (m : Member)
    → new_member r uid spectator ≡ ok m
    → HasPlace uid m r
unfolding new_member
new-HasPlace r uid true m made = inl (ap (λ (x : Member). x.spectator) (sym (ok_inj _ m made)))
new-HasPlace r uid false m made =
    let (slot, (free, same)) = slot-cases r uid m (free_slot r.members) made in
    inr
      (subst (λ s. IsFresh s uid r.members) (sym same) (free_slot-IsFresh uid r.members slot free))

complete-new :
    (k : RoomPackets) (h : Hub) (r : Room) (uid : ℕ) (spectator : Bool) (new : Member) (e : Entry)
    → complete k h r uid spectator new ≡ ok e
    → new ≡ e.new
unfolding complete
complete-new k h r uid spectator new e made =
    let (own, (_, made')) = bind-cases (k.fighter h uid new) _ e made in
    let (peers, (_, made'')) = bind-cases (records k h r.members) _ e made' in
    let (entry, (_, same)) =
      bind-cases (k.room_entry_member h r (owner_with r uid spectator) new own) _ e made'' in
    ap (λ (x : Entry). x.new) (ok_inj _ e same)

prepared-HasPlace :
    (k : RoomPackets) (h : Hub) (r : Room) (uid : ℕ) (spectator : Bool) (e : Entry)
    → prepare_entry k h r uid spectator ≡ ok e
    → HasPlace uid e.new r
unfolding prepare_entry
prepared-HasPlace k h r uid spectator e made =
    let (_, made') = guard-cases _ _ _ e made in
    let (new, (taken, made'')) = bind-cases (new_member r uid spectator) _ e made' in
    subst (λ m. HasPlace uid m r) (complete-new k h r uid spectator new e made'')
      (new-HasPlace r uid spectator new taken)

-- A player that enters a room of the hub, or is refused, leaves every room with its fighters seated: no two
-- fighters of a room have the same slot, and slots are below eight.
pub install-IsHub :
    (k : RoomPackets) (r : Room) (uid : ℕ) (spectator : Bool) (h : Hub)
    → IsHub h
    → lookup r.number h.rooms ≡ some r
    → IsHub (install k r uid spectator h).1
unfolding install
install-IsHub k r uid spectator h fine there = hub-Ended (install k r uid spectator h) (
    bind-Ended (λ e h'. (h' ≡ h) × (prepare_entry k h r uid spectator ≡ ok e)) Kept
      (lift (prepare_entry k h r uid spectator))
      (λ e. enter r.number uid (not (r.owner == e.owner)) e) h
      (lift-Ended (λ e h'. (h' ≡ h) × (prepare_entry k h r uid spectator ≡ ok e))
        (prepare_entry k h r uid spectator) h fine λ e made. (refl, made))
      λ e h' (same, made).
        enter-Keeps r.number uid (not (r.owner == e.owner)) e h' (subst IsHub (sym same) fine)
          λ x found.
            subst (HasPlace uid e.new)
              (some_inj r x
                (sym there ∙ (ap (λ (y : Hub). lookup r.number y.rooms) (sym same) ∙ found)))
              (prepared-HasPlace k h r uid spectator e made))
