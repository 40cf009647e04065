-- ===== src/Tests/Types.antt =====
-- crates/ephemera-types at small inputs.
use ephemera_social.Base.{◌⊎◌, ◌+◌, ◌*◌, ◌<◌, ◌≤◌, ◌≡◌, refl, max, true, false, arith, u64_size}
use ephemera_social.Types.Hlc.{new, wall_secs, counter, update}
use ephemera_social.Types.Hlc.Laws.{parts-new, new-parts, update_above}
use ephemera_social.Types.Ttl.{
  Expiry, is_timestamp_acceptable, is_expired_at, is_ttl_valid, tombstone_expires_at_secs,
  from_secs, from_secs_range, ok, InRange, one_hour, one_day, one_week, max_ttl, max_ttl_secs,
  invalid_ttl, accepted_expires, unexpired_valid, min_ttl_secs, clock_skew_tolerance_secs,
  tombstone_retention_multiplier,
}

update_ties : update 100 (new 100 7) (new 100 9) ≡ new 100 10
unfolding update new
update_ties = refl

update_overflow : update 100 (new 100 65535) (new 90 3) ≡ new 101 0
unfolding update new
update_overflow = refl

short_ttl : from_secs 60 ≡ invalid_ttl 60 3600 2592000
unfolding from_secs
short_ttl = refl

parts-new_example :
    (wall_secs (new 1700000000 3) ≡ 1700000000)
    × (counter (new 1700000000 3) ≡ 3)
    × (new 1700000000 3 < u64_size)
parts-new_example = parts-new 1700000000 3 (omega arith) (omega arith)

new-parts_example : new (wall_secs 111411200000003) (counter 111411200000003) ≡ 111411200000003
new-parts_example = new-parts 111411200000003 (omega arith)

update_above_example :
    (6553607 < update 90 6553607 6553609)
    × (6553609 < update 90 6553607 6553609)
    × (update 90 6553607 6553609 < u64_size)
    × (90 ≤ wall_secs (update 90 6553607 6553609))
    × (wall_secs (update 90 6553607 6553609)
        ≤ max (max 90 (wall_secs 6553607)) (wall_secs 6553609) + 1)
unfolding wall_secs
update_above_example = update_above 90 6553607 6553609 (omega arith) (omega arith) (omega arith)

from_secs_range_example :
    (((from_secs 7200 ≡ ok (record { secs = 7200 })) × InRange (record { secs = 7200 }))
      ⊎ ((from_secs 7200 ≡ invalid_ttl 7200 min_ttl_secs max_ttl_secs)
          × ((7200 < min_ttl_secs) ⊎ (max_ttl_secs < 7200))))
    × InRange one_hour
    × InRange one_day
    × InRange one_week
    × InRange max_ttl
from_secs_range_example = from_secs_range 7200

abbrev post : Expiry
post = record { created_at = 1000200; ttl = record { secs = 86400 } }

accepted_expires_example :
    (is_expired_at post 4000000 ≡ true)
    × (is_ttl_valid (4000000 + clock_skew_tolerance_secs) 1000200 (record { secs = 86400 }) ≡ false)
unfolding is_timestamp_acceptable
accepted_expires_example = accepted_expires 1000000 4000000 post (omega arith) refl (omega arith)

unexpired_valid_example :
    (is_ttl_valid 1086800 1000200 (record { secs = 86400 }) ≡ true)
    × (1086600 + tombstone_retention_multiplier * min_ttl_secs ≤ tombstone_expires_at_secs post)
unfolding is_expired_at
unexpired_valid_example = unexpired_valid 1086600 1086800 post (omega arith) refl (omega arith)
