-- ===== src/Rooms/Barriers/Opens.antt =====
-- server/kk_local/room_flow.py: `advance_barriers` moves a room exactly when everyone has answered.
use kungfukid_local_server.Base.{ℕ, ◌≡◌, ◌≢◌, some, Option, List, [], nat_eq, member}
use kungfukid_local_server.Base.Dict.{Dict, contains}
use kungfukid_local_server.Hub.{Hub, Room, Member, Stage, fighters, mode_of}

-- everyone of the roster, and nobody else, is in the set
abbrev pub Everyone : List ℕ → Dict ℕ Member → Type 0
Everyone answered roster = (uid : ℕ) → member uid answered ≡ contains uid roster

-- When each barrier is open.
abbrev pub IsLoaded : Room → Type 0
IsLoaded r = (r.stage ≡ Stage.loading) × ((mode_of r.request ≢ 10) × Everyone r.loaded r.members)

abbrev pub IsReady : Room → Type 0
IsReady r = (r.stage ≡ Stage.wait_ready) × ((fighters r ≢ []) × Everyone r.input_ready (fighters r))

abbrev pub IsSeen : Room → Type 0
IsSeen r = (r.stage ≡ Stage.result) × Everyone r.result_acks r.members

-- The room goes to the next stage if this holds, and stays in its own if not.
abbrev pub Moves : Type 0 → Stage → Room → Option Stage → Type 0
Moves open_now next r result =
    (open_now → result ≡ some next) × (¬ open_now → result ≡ some r.stage)
