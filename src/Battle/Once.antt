-- ===== src/Battle/Once.antt =====
-- A battle message that was relayed is not relayed a second time.
pub mod Others
pub mod Modes
pub mod Generic
use kungfukid_local_server.Base.{
  ℕ, ◌≡◌, refl, Bool, true, false, ◌||◌, ◌⊎◌, inl, inr, Option, none, some, List, [], ◌∷◌, arith,
  member, ◌==◌, if◌then◌else◌, Bool-cases,
}
use kungfukid_local_server.Base.Bytes.{Bytes}
use kungfukid_local_server.Hub.{Room, Hub}
use kungfukid_local_server.Battle.Event.{Event}
use kungfukid_local_server.Battle.Outcome.{Context, Outcome, Delivery, relay, ignore}
use kungfukid_local_server.Battle.Receipts.{decide_pickup}
use kungfukid_local_server.Battle.Hits.{decide_hit_receipt}
use kungfukid_local_server.Battle.Deaths.{decide_death_notice}
use kungfukid_local_server.Battle.Pairs.{decide_slip, decide_pair_transform}
use kungfukid_local_server.Battle.Reborn.{decide_reborn_sync}
use kungfukid_local_server.Battle.Relay.{decide_relay}
use kungfukid_local_server.Battle.SeriesFlow.{decide_series_event}
use kungfukid_local_server.Battle.Handler.{decide_at}
use Others.{after, death_once, pickup_once, hit_once, slip_once, transform_once}
use Modes.{reborn_once, series_once}
use Generic.{relay_once}

-- A message that a handler relays is passed over when it is decided again in the room as it then
-- stands, whichever handler it belongs to; the clocks are those of the two engines it may ask.
pub decide_once :
    (x : Context) (d : Event) (p : Bytes) (owner_now first_now : ℕ) (r : Room) (to : Delivery)
    → decide_at x d p owner_now first_now ≡ relay r to
    → (decide_at (after x r) d p owner_now first_now ≡ ignore none)
      ⊎ (decide_at (after x r) d p owner_now first_now ≡ ignore (some "sequence_stale"))
unfolding decide_at
decide_once x d p owner_now first_now r to h = ground (
  arith,
  series_once x d r to owner_now,
  pickup_once x d r to,
  hit_once x d r to,
  death_once x d r to,
  reborn_once x d r to p,
  transform_once x d r to first_now,
  slip_once x d r to,
  relay_once x d p r to,
)
