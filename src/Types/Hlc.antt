-- ===== src/Types/Hlc.antt =====
-- crates/ephemera-types/src/timestamp.rs: the hybrid logical clock's timestamp, one `u64` with
-- the seconds above sixteen bits of counter. `Timestamp` is its number of seconds. What
-- `Timestamp::now` reads is an argument of whatever reads it.
pub mod Laws
use ephemera_social.Base.{
  ℕ, ◌+◌, ◌*◌, ◌/◌, ◌%◌, ◌<◌, ◌≤◌, max, Option, none, some, Bool, ◌&&◌, ◌==◌, ltb, if◌then◌else◌,
  u16_size, u64_size, saturating_add,
}

-- `Timestamp`: Unix seconds.
abbrev pub Timestamp : Type 0
Timestamp = ℕ

-- `HlcTimestamp`: the packed word.
abbrev pub HlcTimestamp : Type 0
HlcTimestamp = ℕ

-- `HlcTimestamp::new`. The shift drops what leaves the word; the low sixteen bits that it makes
-- are zero, so `|` with a `u16` is a sum.
unfoldable pub new : ℕ → ℕ → HlcTimestamp
new wall counter = (wall * u16_size) % u64_size + counter

unfoldable pub wall_secs : HlcTimestamp → ℕ
wall_secs t = t / u16_size

unfoldable pub counter : HlcTimestamp → ℕ
counter t = t % u16_size

unfoldable pub to_timestamp : HlcTimestamp → Timestamp
unfolding wall_secs
to_timestamp t = wall_secs t

-- `checked_add(1)` on `u16`.
unfoldable pub checked_next : ℕ → Option ℕ
checked_next c = if ltb (c + 1) u16_size then some (c + 1) else none

-- The ladder of `update` that picks the counter.
unfoldable pub next_counter : ℕ → HlcTimestamp → HlcTimestamp → Option ℕ
unfolding wall_secs counter checked_next
next_counter max_wall self remote =
    if max_wall == wall_secs self && max_wall == wall_secs remote
    then checked_next (max (counter self) (counter remote))
    else if max_wall == wall_secs self
    then checked_next (counter self)
    else if max_wall == wall_secs remote
    then checked_next (counter remote)
    else some 0

-- The `match` of `update`: an overflow of the counter moves to the next second.
unfoldable pub carry : ℕ → Option ℕ → HlcTimestamp
unfolding new
carry max_wall (some c) = new max_wall c
carry max_wall none = new (saturating_add max_wall 1) 0

-- `HlcTimestamp::update`, at the wall clock's `now`.
unfoldable pub update : Timestamp → HlcTimestamp → HlcTimestamp → HlcTimestamp
unfolding wall_secs next_counter carry
update now self remote =
    let max_wall = max (max now (wall_secs self)) (wall_secs remote) in
    carry max_wall (next_counter max_wall self remote)
