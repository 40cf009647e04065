-- ===== src/Dht/Bucket/Laws.antt =====
-- The bounds of a bucket, the order of its entries, and what a second copy in the replacement cache
-- does.
use ephemera_social.Base.{
  ℕ, ◌+◌, ◌-◌, ◌≤◌, ◌<◌, ◌≡◌, refl, Bool, true, false, Option, none, some, List, [], ◌∷◌, ◌++◌,
  length, any, list_ord, nat_ord, arith, length-append, leb, ◌||◌, Bool-cases, inl, inr, ◌⊎◌,
  list_eq, list_flip,
}
use ephemera_social.Types.NodeId.{NodeId}
use ephemera_social.Dht.Bucket.{
  NodeEntry, KBucket, bucket_full, front, pop_front, back, pop_back, has_id, remove_id, cache,
  insert, promote, evict_oldest, front_id,
}

-- Whether some entry has the id.
abbrev pub has : NodeId → List NodeEntry → Bool
has id es = any (has_id id) es

-- No two entries have one id.
abbrev pub Distinct : List NodeEntry → Type 0
Distinct [] = Unit
Distinct (e ∷ es) = (has e.id es ≡ false) × Distinct es

pub record IsValid (b : KBucket) : Type 0 where
  pub positive : 0 < b.k
  pub bounded : length b.entries ≤ b.k
  pub cached : length b.replacement_cache ≤ b.k
  pub distinct : Distinct b.entries

length-remove_id :
    (id : NodeId) (es : List NodeEntry)
    → has id es ≡ true
    → length (remove_id id es) + 1 ≡ length es
unfolding any remove_id
length-remove_id id [] h = absurd (ground arith)
length-remove_id id (e ∷ es) h = ground (arith, length-remove_id id es)

has-append :
    (id : NodeId) (es : List NodeEntry) (x : NodeEntry)
    → has id (es ++ x ∷ []) ≡ (has id es || has_id id x)
unfolding any
has-append id [] x = ground arith
has-append id (e ∷ es) x = ground (arith, has-append id es x)

has-remove_id :
    (j id : NodeId) (es : List NodeEntry) → has j es ≡ false → has j (remove_id id es) ≡ false
unfolding any remove_id
has-remove_id j id [] h = refl
has-remove_id j id (e ∷ es) h = ground (arith, has-remove_id j id es)

has-remove_id_self :
    (id : NodeId) (es : List NodeEntry) → Distinct es → has id (remove_id id es) ≡ false
unfolding any remove_id
has-remove_id_self id [] d = refl
has-remove_id_self id (e ∷ es) d = ground (arith, has-remove_id_self id es, list_eq {A = ℕ} e.id id)

remove_id-Distinct : (id : NodeId) (es : List NodeEntry) → Distinct es → Distinct (remove_id id es)
unfolding remove_id
remove_id-Distinct id [] d = tt
remove_id-Distinct id (e ∷ es) d =
    ground (arith, remove_id-Distinct id es, has-remove_id e.id id es)

append-Distinct :
    (es : List NodeEntry) (x : NodeEntry)
    → Distinct es
    → has x.id es ≡ false
    → Distinct (es ++ x ∷ [])
unfolding any
append-Distinct [] x d h = (refl, tt)
append-Distinct (e ∷ es) x d h =
    ground (arith, append-Distinct es x d.1, has-append e.id es x, list_flip {A = ℕ} e.id x.id)

pub length-pop_front : (es : List NodeEntry) → length (pop_front es) ≡ length es - 1
length-pop_front [] = omega arith
length-pop_front (e ∷ es) = omega arith

length-pop_back : (es : List NodeEntry) → length (pop_back es) ≡ length es - 1
unfolding pop_back
length-pop_back [] = omega arith
length-pop_back (e ∷ []) = omega arith
length-pop_back (e ∷ f ∷ es) = omega (arith, length-pop_back (f ∷ es))

length-cache :
    (x : NodeEntry) (b : KBucket)
    → 0 < b.k
    → length b.replacement_cache ≤ b.k
    → length (cache x b).replacement_cache ≤ b.k
unfolding cache
length-cache x b p h = ground (
  arith,
  length-append (pop_front b.replacement_cache) (x ∷ []),
  length-append b.replacement_cache (x ∷ []),
  length-pop_front b.replacement_cache,
)

pub back-append : (es : List NodeEntry) (x : NodeEntry) → back (es ++ x ∷ []) ≡ some x
unfolding back
back-append [] x = refl
back-append (e ∷ []) x = refl
back-append (e ∷ f ∷ es) x = back-append (f ∷ es) x

insert-IsValid : (x : NodeEntry) (b : KBucket) → IsValid b → IsValid (insert x b).0
unfolding insert
insert-IsValid x b v = elim (Bool-cases (has x.id b.entries)) [
  | inl old ↦ rw old (record {
    positive = v.positive;
    bounded = omega (
      arith,
      length-append (remove_id x.id b.entries) (x ∷ []),
      length-remove_id x.id b.entries old,
      v.bounded,
    );
    cached = v.cached;
    distinct =
        append-Distinct (remove_id x.id b.entries) x (remove_id-Distinct x.id b.entries v.distinct)
          (has-remove_id_self x.id b.entries v.distinct);
  })
  | inr new ↦ rw new (elim (Bool-cases (leb b.k (length b.entries))) [
    | inl full ↦ rw full (record {
      positive = v.positive;
      bounded = v.bounded;
      cached = length-cache x b v.positive v.cached;
      distinct = v.distinct;
    })
    | inr room ↦ rw room (record {
      positive = v.positive;
      bounded = ground (arith, length-append b.entries (x ∷ []));
      cached = v.cached;
      distinct = append-Distinct b.entries x v.distinct new;
    })
  ])
]

-- An insertion into a valid bucket keeps it valid and keeps its size parameter; and either the
-- entry is the last one then, or the bucket was full of other nodes, its entries are as they were,
-- and the result asks for a ping of the first, the least recently seen.
pub insert_outcome :
    (x : NodeEntry) (b : KBucket)
    → IsValid b
    → IsValid (insert x b).0
      × ((insert x b).0.k ≡ b.k)
      × ((back (insert x b).0.entries ≡ some x)
          ⊎ (((insert x b).0.entries ≡ b.entries)
              × ((insert x b).1 ≡ bucket_full (front_id b.entries))
              × (length b.entries ≡ b.k)
              × (has x.id b.entries ≡ false)))
unfolding insert
insert_outcome x b v = (
  insert-IsValid x b v,
  ground arith,
  ground (arith, back-append (remove_id x.id b.entries) x, back-append b.entries x, v.bounded),
)

length-promote :
    (o : Option NodeEntry) (es : List NodeEntry) → length (promote o es) ≤ length es + 1
length-promote none es = omega arith
length-promote (some e) es = omega (arith, length-append es (e ∷ []))

-- An eviction from a bucket whose entries and cache are within its size keeps both within it, and
-- returns the first entry; what it puts last comes from the end of the cache.
pub evict_oldest_bounded :
    (b : KBucket)
    → 0 < b.k
    → length b.entries ≤ b.k
    → length b.replacement_cache ≤ b.k
    → (length (evict_oldest b).0.entries ≤ b.k)
      × (length (evict_oldest b).0.replacement_cache ≤ b.k)
      × ((evict_oldest b).1 ≡ front b.entries)
unfolding evict_oldest
evict_oldest_bounded b p h l = (
  omega (
    arith,
    length-promote (back b.replacement_cache) (pop_front b.entries),
    length-pop_front b.entries,
  ),
  omega (arith, length-pop_back b.replacement_cache),
  refl,
)
