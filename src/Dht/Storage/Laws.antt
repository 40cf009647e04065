-- ===== src/Dht/Storage/Laws.antt =====
-- What the storage promises: bounds, and the reads after each operation.
use ephemera_social.Base.{
  ℕ, ◌+◌, ◌≤◌, ◌<◌, ◌≡◌, ◌⊎◌, ◌≢◌, ◌↔◌, All-keep, none, some, true, length, ltb, leb, if◌then◌else◌,
  same, list_ord, nat_ord, Bytes, arith, length-keep-le,
}
use ephemera_social.Map
use ephemera_social.Map.{Map, get, insert, remove, contains_key, values}
use ephemera_social.Map.Laws.{
  get-insert, get-remove, Values, Values-insert, Values-remove, size-remove-le,
}
use ephemera_social.Map.Sorted.{
  IsSorted, insert-IsSorted, remove-IsSorted, retain-IsSorted, size-insert, get-keep,
}
use ephemera_social.Dht.Record.{DhtRecord, max_ttl_seconds}
use ephemera_social.Dht.Storage.{
  DhtStorage, StoredRecord, ok, put, lookup, delete, sweep_expired, expiry,
}

-- A stored record: small enough, with a lifetime in the range and the expiry that it implies.
abbrev pub Fits : ℕ → StoredRecord → Type 0
Fits max_size r =
    (length r.entry.value ≤ max_size)
    × (r.entry.ttl_seconds ≤ max_ttl_seconds)
    × (r.expires_at ≡ expiry r.entry)

pub record IsValid (s : DhtStorage) : Type 0 where
  pub sorted : IsSorted s.records
  pub bounded : Map.size s.records ≤ s.max_records
  pub fit : Values (Fits s.max_record_size) s.records

put-IsValid : (now : ℕ) (r : DhtRecord) (s : DhtStorage) → IsValid s → IsValid (put now r s).0
unfolding put
put-IsValid now r s v =
    let stored : StoredRecord = record { entry = r; expires_at = expiry r } in
    ground (
      arith,
      insert-IsSorted r.key stored s.records v.sorted,
      size-insert r.key stored s.records v.sorted,
      Values-insert (Fits s.max_record_size) r.key stored s.records,
      v.bounded,
    )

-- Every operation keeps the storage valid: at most the configured number of records, each within
-- the size and the lifetime that `put` checks, each with the expiry that it implies.
pub storage_ops-IsValid :
    (now : ℕ) (key : Bytes) (r : DhtRecord) (s : DhtStorage)
    → IsValid s
    → IsValid (put now r s).0 × IsValid (delete key s).0 × IsValid (sweep_expired now s).0
unfolding delete sweep_expired
storage_ops-IsValid now key r s v = (
  put-IsValid now r s v,
  record {
    sorted = remove-IsSorted key s.records v.sorted;
    bounded = omega (arith, size-remove-le key s.records, v.bounded);
    fit = Values-remove (Fits s.max_record_size) key s.records v.fit;
  },
  record {
    sorted = retain-IsSorted (λ e. leb now (e.1.expires_at)) s.records v.sorted;
    bounded = omega (arith, length-keep-le (λ e. leb now (e.1.expires_at)) s.records, v.bounded);
    fit =
        All-keep (λ e. Fits s.max_record_size e.1) (λ e. leb now (e.1.expires_at)) s.records v.fit;
  },
)

-- A record can be read exactly as it was put, until it expires: after a successful `put`, its key
-- reads as the record at every instant up to its expiry and as nothing afterwards, and the other
-- keys read as before; after a refused `put` all keys read as before.
pub lookup-put :
    (now later : ℕ) (q : Bytes) (r : DhtRecord) (s : DhtStorage)
    → (((put now r s).1 ≡ ok)
        × (lookup later q (put now r s).0 ≡ (
            if same q r.key
            then (if ltb (expiry r) later then none else some r)
            else lookup later q s)))
      ⊎ (((put now r s).1 ≢ ok) × ((put now r s).0 ≡ s))
unfolding put lookup
lookup-put now later q r s =
    ground (arith, get-insert q r.key (record { entry = r; expires_at = expiry r }) s.records)

-- A sweep of a valid storage is invisible to readers whose clock is not behind the sweep's: every
-- key reads as before, and a swept key could not be read. The number that it returns is how many
-- records are gone. A removed key reads as nothing, and the other keys read as before.
pub lookup-sweep :
    (now later : ℕ) (q key : Bytes) (s : DhtStorage)
    → IsValid s
    → now ≤ later
    → (lookup later q (sweep_expired now s).0 ≡ lookup later q s)
      × (Map.size (sweep_expired now s).0.records + (sweep_expired now s).1 ≡ Map.size s.records)
      × (lookup later q (delete key s).0 ≡ (if same q key then none else lookup later q s))
unfolding lookup sweep_expired delete
lookup-sweep now later q key s v h = (
  ground (arith, get-keep (λ e. leb now (e.1.expires_at)) q s.records v.sorted),
  omega (arith, length-keep-le (λ e. leb now (e.1.expires_at)) s.records),
  ground (arith, get-remove q key s.records),
)

-- `put` accepts a record exactly if its value and its lifetime are within the bounds, it has not
-- expired, and its key is present or there is room.
pub put-ok_iff :
    (now : ℕ) (r : DhtRecord) (s : DhtStorage)
    → ((put now r s).1 ≡ ok) ↔ (
        (length r.value ≤ s.max_record_size)
        × (r.ttl_seconds ≤ max_ttl_seconds)
        × (now ≤ expiry r)
        × ((contains_key r.key s.records ≡ true) ⊎ (Map.size s.records < s.max_records)))
unfolding put
put-ok_iff now r s = ground arith
