-- ===== src/Types/Ttl.antt =====
-- crates/ephemera-types/src/ttl.rs: lifetimes between an hour and thirty days, the instant at
-- which content expires, and the checks on what a peer sends.
use ephemera_social.Base.{
  ℕ, ◌+◌, ◌*◌, ◌<◌, ◌≤◌, ◌≡◌, Bool, true, false, ◌&&◌, ltb, leb, if◌then◌else◌, arith, ◌⊎◌,
}
use ephemera_social.Types.Hlc.{Timestamp}

abbrev pub min_ttl_secs : ℕ
min_ttl_secs = 3600

abbrev pub max_ttl_secs : ℕ
max_ttl_secs = 30 * 24 * 3600

abbrev pub clock_skew_tolerance_secs : ℕ
clock_skew_tolerance_secs = 5 * 60

abbrev pub tombstone_retention_multiplier : ℕ
tombstone_retention_multiplier = 3

-- `Ttl`: its seconds.
pub record Ttl : Type 0 where
  pub secs : ℕ

-- `Result<Ttl, EphemeraError>` with the one error of `from_secs`.
pub data TtlResult : Type 0 where
  ok : Ttl → TtlResult
  invalid_ttl : (value_secs min_secs max_secs : ℕ) → TtlResult

-- `Ttl::from_secs`
unfoldable pub from_secs : ℕ → TtlResult
from_secs secs =
    if leb min_ttl_secs secs && leb secs max_ttl_secs
    then ok (record { secs = secs })
    else invalid_ttl secs min_ttl_secs max_ttl_secs

-- The constructors of the fixed lifetimes.
unfoldable pub one_hour : Ttl
one_hour = record { secs = min_ttl_secs }

unfoldable pub one_day : Ttl
one_day = record { secs = 24 * 3600 }

unfoldable pub one_week : Ttl
one_week = record { secs = 7 * 24 * 3600 }

unfoldable pub max_ttl : Ttl
max_ttl = record { secs = max_ttl_secs }

pub record Expiry : Type 0 where
  pub created_at : Timestamp
  pub ttl : Ttl

unfoldable pub expires_at_secs : Expiry → ℕ
expires_at_secs e = e.created_at + e.ttl.secs

unfoldable pub is_expired_at : Expiry → Timestamp → Bool
unfolding expires_at_secs
is_expired_at e now = ltb (expires_at_secs e) now

unfoldable pub tombstone_expires_at_secs : Expiry → ℕ
unfolding expires_at_secs
tombstone_expires_at_secs e = expires_at_secs e + tombstone_retention_multiplier * e.ttl.secs

-- `is_timestamp_acceptable`, at the local clock's `now`.
unfoldable pub is_timestamp_acceptable : Timestamp → Timestamp → Bool
is_timestamp_acceptable now remote_ts = leb remote_ts (now + clock_skew_tolerance_secs)

-- `is_ttl_valid`, at the local clock's `now`.
unfoldable pub is_ttl_valid : Timestamp → Timestamp → Ttl → Bool
is_ttl_valid now created_at ttl = leb now (created_at + ttl.secs + clock_skew_tolerance_secs)

-- The range that the type promises.
abbrev pub InRange : Ttl → Type 0
InRange t = (min_ttl_secs ≤ t.secs) × (t.secs ≤ max_ttl_secs)

-- `from_secs` succeeds exactly on the lifetimes in the range, with the seconds that it was given,
-- and otherwise reports those seconds with both bounds; the four fixed lifetimes are in the range.
pub from_secs_range :
    (secs : ℕ)
    → (((from_secs secs ≡ ok (record { secs = secs })) × InRange (record { secs = secs }))
        ⊎ ((from_secs secs ≡ invalid_ttl secs min_ttl_secs max_ttl_secs)
            × ((secs < min_ttl_secs) ⊎ (max_ttl_secs < secs))))
      × InRange one_hour
      × InRange one_day
      × InRange one_week
      × InRange max_ttl
unfolding from_secs one_hour one_day one_week max_ttl
from_secs_range secs = ground arith

-- Content with a lifetime in the range, taken from a peer whose timestamp passes the skew check at
-- `now`, has expired for every reader more than thirty days and five minutes after `now`, and no
-- reader more than five minutes later still finds its lifetime valid.
pub accepted_expires :
    (now later : Timestamp) (e : Expiry)
    → InRange e.ttl
    → is_timestamp_acceptable now e.created_at ≡ true
    → now + max_ttl_secs + clock_skew_tolerance_secs < later
    → (is_expired_at e later ≡ true)
      × (is_ttl_valid (later + clock_skew_tolerance_secs) e.created_at e.ttl ≡ false)
unfolding is_timestamp_acceptable is_expired_at is_ttl_valid
accepted_expires now later e r a h = ground arith

-- Content with a lifetime in the range that has not expired for a reader is valid for every reader
-- whose clock is at most five minutes ahead of the first, and its tombstone is due at least three
-- hours later.
pub unexpired_valid :
    (later ahead : Timestamp) (e : Expiry)
    → InRange e.ttl
    → is_expired_at e later ≡ false
    → ahead ≤ later + clock_skew_tolerance_secs
    → (is_ttl_valid ahead e.created_at e.ttl ≡ true)
      × (later + tombstone_retention_multiplier * min_ttl_secs ≤ tombstone_expires_at_secs e)
unfolding is_expired_at is_ttl_valid tombstone_expires_at_secs
unexpired_valid later ahead e r a h = ground arith
