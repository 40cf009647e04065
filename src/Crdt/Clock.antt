-- ===== src/Crdt/Clock.antt =====
-- crates/ephemera-crdt/src/clock.rs: a node's clock, which ticks for local events and joins the
-- timestamps that peers send.
use ephemera_social.Base.{
  ◌+◌, ◌%◌, ◌<◌, ◌≤◌, ◌≡◌, ◌⊎◌, List, [], ◌∷◌, ltb, if◌then◌else◌, u16_size, u64_size, arith,
}
use ephemera_social.Types.Hlc
use ephemera_social.Types.Hlc.{HlcTimestamp, Timestamp, wall_secs, counter}
use ephemera_social.Types.Hlc.Laws.{wall_size, update_above}

pub record HybridClock : Type 0 where
  pub latest : HlcTimestamp

-- `HybridClock::new`, at the wall clock's `now`.
unfoldable pub new : Timestamp → HybridClock
unfolding Hlc.new
new now = record { latest = Hlc.new now 0 }

-- `tick`. The counter's `+ 1` is the addition of a release build, which wraps; a debug build
-- panics there.
unfoldable pub tick : Timestamp → HybridClock → HybridClock × HlcTimestamp
unfolding Hlc.new wall_secs counter
tick now c =
    let local_wall = wall_secs c.latest in
    let latest =
      if ltb local_wall now
      then Hlc.new now 0
      else Hlc.new local_wall ((counter c.latest + 1) % u16_size) in
    (record { latest = latest }, latest)

unfoldable pub update : Timestamp → HlcTimestamp → HybridClock → HybridClock × HlcTimestamp
unfolding Hlc.update
update now remote c =
    let latest = Hlc.update now c.latest remote in (record { latest = latest }, latest)

-- What can happen to a clock, with the wall clock's reading at the time.
pub data Event : Type 0 where
  local : Timestamp → Event
  receive : Timestamp → HlcTimestamp → Event

unfoldable pub step : Event → HybridClock → HybridClock × HlcTimestamp
unfolding tick update
step (local now) c = tick now c
step (receive now remote) c = update now remote c

-- The timestamps that a clock issues over a sequence of events, in order.
unfoldable pub issued : List Event → HybridClock → List HlcTimestamp
issued [] c = []
issued (e ∷ es) c = (step e c).1 ∷ issued es (step e c).0

-- The clock has room for an event: its seconds and those that the event brings stay below the
-- last that fit in 48 bits, and a tick of a clock that is not behind the wall clock has a counter
-- value left.
abbrev pub HasRoom : Event → HybridClock → Type 0
HasRoom (local now) c =
    (now < wall_size)
    × (c.latest < u64_size)
    × ((wall_secs c.latest < now) ⊎ (counter c.latest + 1 < u16_size))
HasRoom (receive now remote) c =
    (now + 1 < wall_size)
    × (wall_secs c.latest + 1 < wall_size)
    × (wall_secs remote + 1 < wall_size)

abbrev pub Roomy : List Event → HybridClock → Type 0
Roomy [] c = Unit
Roomy (e ∷ es) c = HasRoom e c × Roomy es (step e c).0

tick_above : (now : Timestamp) (c : HybridClock) → HasRoom (local now) c → c.latest < (tick now c).1
unfolding tick
tick_above now c h = ground arith

latest-step : (e : Event) (c : HybridClock) → (step e c).0.latest ≡ (step e c).1
unfolding step
latest-step (local now) c = ground arith
latest-step (receive now remote) c = ground arith

step_above : (e : Event) (c : HybridClock) → HasRoom e c → c.latest < (step e c).1
unfolding step
step_above (local now) c h = tick_above now c h
step_above (receive now remote) c h = (update_above now c.latest remote h.0 h.1 h.2).0

-- Each timestamp of the list lies strictly above the one before it.
abbrev pub Ascending : HlcTimestamp → List HlcTimestamp → Type 0
Ascending low [] = Unit
Ascending low (t ∷ ts) = (low < t) × Ascending t ts

-- Over any sequence of local events and received timestamps for which the clock has room, the
-- issued timestamps are strictly ascending, from the clock's first value on.
pub issued-Ascending :
    (es : List Event) (c : HybridClock) → Roomy es c → Ascending c.latest (issued es c)
unfolding issued
issued-Ascending [] c h = tt
issued-Ascending (e ∷ es) c h =
    (step_above e c h.0, rw (← latest-step e c) (issued-Ascending es (step e c).0 h.1))

-- Where the wall clock is not ahead and the counter is at its last value, `tick` in a release
-- build issues a timestamp below the one before it.
pub tick_wraps :
    (now : Timestamp) (c : HybridClock)
    → c.latest < u64_size
    → now ≤ wall_secs c.latest
    → counter c.latest ≡ 65535
    → (tick now c).1 + 65535 ≡ c.latest
unfolding tick
tick_wraps now c h k l = ground arith
