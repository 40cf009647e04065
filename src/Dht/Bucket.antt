-- ===== src/Dht/Bucket.antt =====
-- crates/ephemera-dht/src/routing.rs: the known nodes, and the buckets that hold them with the
-- least recently seen first. Instants are numbers.
pub mod Laws
pub mod Twice
use ephemera_social.Base.{
  as_u32, ℕ, suc, ◌+◌, ◌-◌, Bool, true, false, Option, none, some, List, [], ◌∷◌, ◌++◌, length, any,
  ltb, leb, if◌then◌else◌, same, list_ord, nat_ord, Bytes, not,
}
use ephemera_social.Types.NodeId.{NodeId}

-- `std::net::SocketAddr`: the bytes of the address, and the port.
abbrev pub SocketAddr : Type 0
SocketAddr = Bytes × ℕ

pub record NodeEntry : Type 0 where
  pub id : NodeId
  pub addresses : List SocketAddr
  pub last_seen : ℕ
  pub last_rtt : Option ℕ
  pub failures : ℕ

unfoldable pub new_entry : ℕ → NodeId → List SocketAddr → NodeEntry
new_entry now id addresses = record {
  id = id;
  addresses = addresses;
  last_seen = now;
  last_rtt = none;
  failures = 0;
}

unfoldable pub mark_seen : ℕ → NodeEntry → NodeEntry
mark_seen now e = record e { last_seen = now; failures = 0 }

-- The counter has 32 bits, and wraps around where overflow is not checked.
unfoldable pub record_failure : NodeEntry → NodeEntry
record_failure e = record e { failures = as_u32 (e.failures + 1) }

-- `last_seen.elapsed() > timeout`; `elapsed` is zero where the clock went back.
unfoldable pub is_stale : ℕ → ℕ → NodeEntry → Bool
is_stale now timeout e = ltb timeout (now - e.last_seen)

pub record KBucket : Type 0 where
  pub entries : List NodeEntry
  pub replacement_cache : List NodeEntry
  pub k : ℕ

pub data InsertResult : Type 0 where
  inserted : InsertResult
  updated : InsertResult
  bucket_full : Option NodeId → InsertResult

-- `VecDeque`: `pop_front`, `pop_back`, `front`, and `remove` at the first position with the id.
module _ {ℓ} {A : Type ℓ} where
  abbrev pub front : List A → Option A
  front [] = none
  front (x ∷ xs) = some x

  abbrev pub pop_front : List A → List A
  pop_front [] = []
  pop_front (x ∷ xs) = xs

  unfoldable pub back : List A → Option A
  back [] = none
  back (x ∷ []) = some x
  back (x ∷ y ∷ ys) = back (y ∷ ys)

  unfoldable pub pop_back : List A → List A
  pop_back [] = []
  pop_back (x ∷ []) = []
  pop_back (x ∷ y ∷ ys) = x ∷ pop_back (y ∷ ys)

abbrev pub has_id : NodeId → NodeEntry → Bool
has_id id e = same e.id id

unfoldable pub remove_id : NodeId → List NodeEntry → List NodeEntry
remove_id id [] = []
remove_id id (e ∷ es) = if has_id id e then es else e ∷ remove_id id es

unfoldable pub new : ℕ → KBucket
new k = record { entries = []; replacement_cache = []; k = k }

unfoldable pub len : KBucket → ℕ
len b = length b.entries

unfoldable pub is_full : KBucket → Bool
is_full b = leb b.k (length b.entries)

-- The last part of `insert`: the entry goes to the replacement cache, which drops its oldest.
unfoldable pub cache : NodeEntry → KBucket → KBucket
cache entry b = record b {
  replacement_cache =
      (if leb b.k (length b.replacement_cache)
        then pop_front b.replacement_cache
        else b.replacement_cache)
      ++ entry ∷ [];
}

-- `front().map(|e| e.id)`
abbrev pub front_id : List NodeEntry → Option NodeId
front_id [] = none
front_id (e ∷ es) = some e.id

unfoldable pub insert : NodeEntry → KBucket → KBucket × InsertResult
unfolding any remove_id is_full cache
insert entry b =
    if any (has_id entry.id) b.entries
    then (record b { entries = remove_id entry.id b.entries ++ entry ∷ [] }, updated)
    else if not (is_full b)
    then (record b { entries = b.entries ++ entry ∷ [] }, inserted)
    else (cache entry b, bucket_full (front_id b.entries))

-- Appends what `pop_back` took from the cache.
abbrev pub promote : Option NodeEntry → List NodeEntry → List NodeEntry
promote none es = es
promote (some e) es = es ++ e ∷ []

unfoldable pub evict_oldest : KBucket → KBucket × Option NodeEntry
unfolding back pop_back
evict_oldest b = (
  record b {
    entries = promote (back b.replacement_cache) (pop_front b.entries);
    replacement_cache = pop_back b.replacement_cache;
  },
  front b.entries,
)
