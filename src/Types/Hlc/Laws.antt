-- ===== src/Types/Hlc/Laws.antt =====
-- The laws of the packed timestamp. The seconds fit in 48 bits until the year 8919.
use ephemera_social.Base.{ℕ, ◌+◌, ◌<◌, ◌≤◌, max, ◌≡◌, arith, u16_size, u64_size}
use ephemera_social.Types.Hlc.{HlcTimestamp, new, wall_secs, counter, update}

-- The seconds that fit in the upper 48 bits.
abbrev pub wall_size : ℕ
wall_size = 281474976710656

-- Packing seconds below 2^48 with a counter below 2^16 loses nothing: both parts read back, and
-- the result is a word of 64 bits.
pub parts-new :
    (wall c : ℕ)
    → wall < wall_size
    → c < u16_size
    → (wall_secs (new wall c) ≡ wall) × (counter (new wall c) ≡ c) × (new wall c < u64_size)
unfolding new wall_secs counter
parts-new wall c h k = omega arith

-- Unpacking and packing any 64-bit word gives it back.
pub new-parts : (t : HlcTimestamp) → t < u64_size → new (wall_secs t) (counter t) ≡ t
unfolding new wall_secs counter
new-parts t h = omega arith

-- While the three clocks stay below the last second that fits, `update` gives a word of 64 bits
-- that lies strictly above both the local and the remote timestamp, whose seconds are not behind
-- the wall clock and at most one ahead of the largest of the three.
pub update_above :
    (now : ℕ) (self remote : HlcTimestamp)
    → now + 1 < wall_size
    → wall_secs self + 1 < wall_size
    → wall_secs remote + 1 < wall_size
    → (self < update now self remote)
      × (remote < update now self remote)
      × (update now self remote < u64_size)
      × (now ≤ wall_secs (update now self remote))
      × (wall_secs (update now self remote) ≤ max (max now (wall_secs self)) (wall_secs remote) + 1)
unfolding update new
update_above now self remote h k l = ground arith
