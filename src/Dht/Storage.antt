-- ===== src/Dht/Storage.antt =====
-- crates/ephemera-dht/src/storage.rs: the records that a node holds, each until its lifetime ends.
-- The clock's reading `now` is an argument of each operation that reads it.
pub mod Laws
use ephemera_social.Base.{
  ℕ, ◌+◌, ◌-◌, ◌%◌, Option, none, some, List, [], ◌∷◌, Bool, true, false, not, ◌&&◌, length, ltb,
  leb, if◌then◌else◌, is_some, list_ord, nat_ord, Bytes, keep, map, wrapping_add,
}
use ephemera_social.Map
use ephemera_social.Map.{Map, get, insert, remove, contains_key, values}
use ephemera_social.Dht.Record.{
  DhtRecord, DhtError, expired, record_too_large, ttl_too_large, storage_full, DhtConfig,
  max_ttl_seconds,
}

-- `StoredRecord`, whose record is called `entry` here.
pub record StoredRecord : Type 0 where
  pub entry : DhtRecord
  pub expires_at : ℕ

pub record DhtStorage : Type 0 where
  pub records : Map Bytes StoredRecord
  pub max_records : ℕ
  pub max_record_size : ℕ

pub data PutResult : Type 0 where
  ok : PutResult
  err : DhtError → PutResult

unfoldable pub new : DhtConfig → DhtStorage
new config = record {
  records = Map.empty;
  max_records = config.max_records;
  max_record_size = config.config_max_record_size;
}

-- `timestamp + u64::from(ttl_seconds)`: the addition of a release build.
unfoldable pub expiry : DhtRecord → ℕ
expiry r = wrapping_add r.timestamp r.ttl_seconds

unfoldable pub put : ℕ → DhtRecord → DhtStorage → DhtStorage × PutResult
unfolding expiry insert get
put now r s =
    if ltb s.max_record_size (length r.value)
    then (s, err (record_too_large (length r.value) s.max_record_size))
    else if ltb max_ttl_seconds r.ttl_seconds
    then (s, err (ttl_too_large r.ttl_seconds max_ttl_seconds))
    else if ltb (expiry r) now
    then (s, err expired)
    else if not (contains_key r.key s.records) && leb s.max_records (Map.size s.records)
    then (s, err (storage_full (Map.size s.records) s.max_records))
    else (
      record s { records = insert r.key (record { entry = r; expires_at = expiry r }) s.records },
      ok,
    )

-- The test of `get`, `sweep_expired` and `all_records`: not yet expired.
abbrev pub is_live : ℕ → StoredRecord → Bool
is_live now stored = not (ltb stored.expires_at now)

abbrev pub live_record : ℕ → Option StoredRecord → Option DhtRecord
live_record now none = none
live_record now (some stored) = if ltb stored.expires_at now then none else some stored.entry

-- `get`
unfoldable pub lookup : ℕ → Bytes → DhtStorage → Option DhtRecord
unfolding get
lookup now key s = live_record now (get key s.records)

-- `remove`
unfoldable pub delete : Bytes → DhtStorage → DhtStorage × Bool
unfolding get remove
delete key s = (record s { records = remove key s.records }, contains_key key s.records)

unfoldable pub sweep_expired : ℕ → DhtStorage → DhtStorage × ℕ
unfolding keep
sweep_expired now s =
    let kept = keep (λ e. leb now (e.1.expires_at)) s.records in
    (record s { records = kept }, Map.size s.records - Map.size kept)

unfoldable pub all_records : ℕ → DhtStorage → List DhtRecord
unfolding keep
all_records now s = map (λ e. e.1.entry) (keep (λ e. leb now (e.1.expires_at)) s.records)
