-- ===== src/Battle/Relay/Commit.antt =====
-- The changes that `handle` makes to the room for a message that passed every check.
use kungfukid_local_server.Base.{
  ℕ, Bool, true, false, not, ◌&&◌, ◌||◌, Option, none, some, List, [], ◌++◌, take, drop, add,
  discard, ◌==◌, if◌then◌else◌, nat_eq, pair_eq,
}
use kungfukid_local_server.Base.Bytes.{Bytes}
use kungfukid_local_server.Base.Dict.{lookup, insert, erase}
use kungfukid_local_server.Hub.{Room, Projectile, CombatCatalog}
use kungfukid_local_server.Battle.Event.{Event, is_apply}
use kungfukid_local_server.Battle.Outcome.{Context, in_members}
use kungfukid_local_server.Battle.Receipts.{append_bounded, permits, receipt_outcomes}
use kungfukid_local_server.Battle.Hits.{hit_ledger}
use kungfukid_local_server.Battle.Pairs.{observe_pair_selection}
use kungfukid_local_server.Battle.Relay.Objects.{spawn_key}

pub data Lane : Type 0 where
  lane_15 lane_19 : Lane

abbrev pub lane_number : Lane → ℕ
lane_number lane_15 = 15
lane_number lane_19 = 19

abbrev pub sequence_of : Lane → Event → ℕ
sequence_of lane_15 d = d.sequence_15_raw
sequence_of lane_19 d = d.sequence_19_raw

-- the message without its bytes 19 to 22
abbrev pub motion_of : Bytes → Bytes
motion_of p = take 19 p ++ drop 23 p

-- the sequence number and, on lane 15, the motion
unfoldable pub note_lane : Context → Event → Bytes → Lane → Room → Room
note_lane x d p lane_15 r = record r {
  last_sequence = insert (x.uid, 15) d.sequence_15_raw r.last_sequence;
  motion_payloads = insert x.uid (motion_of p) r.motion_payloads;
}
note_lane x d p lane_19 r = record r {
  last_sequence = insert (x.uid, 19) d.sequence_19_raw r.last_sequence;
}

-- a report of damage taken leaves a witness for one receipt
abbrev pub witnesses : Context → Event → Bool
witnesses x d =
    (d.id == 8121)
    && (permits x.catalog d.skill_property_id
        && (in_members d.source x.room && (not (d.source == x.uid) && (d.callback_mode == 0))))

abbrev pub outcomes_of : Option CombatCatalog → Event → List ℕ
outcomes_of none d = []
outcomes_of (some c) d =
    receipt_outcomes c d.skill_property_id d.hit_result_status d.attack_callback_flag

abbrev pub note_hit : Context → Event → Lane → Room → Room
note_hit x d lane r = record r {
  pending_hit_receipts =
      insert x.uid
        (append_bounded (hit_ledger x.uid r) (record {
          source = d.source;
          skill = d.skill_property_id;
          status = d.hit_result_status;
          sequence = sequence_of lane d;
          outcomes = outcomes_of x.catalog d;
        }))
        r.pending_hit_receipts;
}

-- the change that an event makes to a known projectile
abbrev pub change_projectile : Context → Event → Projectile → Projectile
change_projectile x d shot =
    if d.id == 8402
    then record shot { hit_reporters = add x.uid shot.hit_reporters }
    else if (d.id == 8401) && not (x.uid == shot.owner)
    then record shot { hit_reporters = discard x.uid shot.hit_reporters }
    else if d.id == 8404
    then record shot { alive = false }
    else shot

-- a new projectile
abbrev pub launched : Context → Event → Projectile
launched x d = record {
  owner = x.uid;
  source = d.source;
  definition_id = d.definition_id;
  scene_id = d.scene_id_raw;
  alive = true;
  hit_reporters = [];
}

unfoldable pub commit_object : Context → Event → Bytes → Room → Room
commit_object x d p r =
    if d.id == 8287
    then record r { spawned_collectibles = insert (spawn_key d) (drop 39 p) r.spawned_collectibles }
    else if d.id == 8400
    then record r { projectiles = insert d.child_key (launched x d) r.projectiles }
    else if (d.id == 8401) || ((d.id == 8402) || (d.id == 8404))
    then elim (lookup d.child_key r.projectiles) [
      | none ↦ r
      | some shot ↦ record r {
        projectiles = insert d.child_key (change_projectile x d shot) r.projectiles;
      }
    ]
    else if d.id == 8150
    then (if is_apply d.operation
        then record r {
          active_states =
              insert (d.target, d.ustate_code) (d.source, d.parameter_signed, d.event_raw)
                r.active_states;
        }
        else record r { active_states = erase (d.target, d.ustate_code) r.active_states })
    else r

-- a selection is noted where the message is one
unfoldable pub note_selection : Context → Event → Room → Room
note_selection x d r =
    if d.id == 8143 then observe_pair_selection (record x { room = r }) d none else r

-- a witness is left where the message reports damage taken
unfoldable pub note_witness : Context → Event → Lane → Room → Room
note_witness x d lane r = if witnesses x d then note_hit x d lane r else r

unfoldable pub commit : Context → Event → Bytes → Lane → Room
commit x d p lane =
    commit_object x d p (note_witness x d lane (note_selection x d (note_lane x d p lane x.room)))
