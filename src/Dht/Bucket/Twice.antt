-- ===== src/Dht/Bucket/Twice.antt =====
-- The replacement cache keeps a second copy of a node, and two evictions put both into the bucket.
use ephemera_social.Base.{
  ◌≤◌, ◌<◌, ◌≡◌, refl, ap, ◌∙◌, false, List, [], ◌∷◌, ◌++◌, length, arith, length-append, leb,
  if◌then◌else◌, inl, inr, Bool-cases, le→leb,
}
use ephemera_social.Dht.Bucket.{
  NodeEntry, KBucket, pop_front, pop_back, cache, insert, evict_oldest,
}
use ephemera_social.Dht.Bucket.Laws.{has, back-append, length-pop_front}

pop_back-append : (es : List NodeEntry) (x : NodeEntry) → pop_back (es ++ x ∷ []) ≡ es
unfolding pop_back
pop_back-append [] x = refl
pop_back-append (e ∷ []) x = refl
pop_back-append (e ∷ f ∷ es) x = ap (◌∷◌ e) (pop_back-append (f ∷ es) x)

pop_front-append :
    (es : List NodeEntry) (x : NodeEntry)
    → 0 < length es
    → pop_front (es ++ x ∷ []) ≡ pop_front es ++ x ∷ []
pop_front-append [] x h = elim h [ ]
pop_front-append (e ∷ es) x h = refl

-- Two insertions of one entry leave two copies at the end of the cache.
cache_twice :
    (x : NodeEntry) (b : KBucket)
    → 2 ≤ b.k
    → (older : List NodeEntry) × ((cache x (cache x b)).replacement_cache
        ≡ (older ++ x ∷ []) ++ x ∷ [])
unfolding cache
cache_twice x b h =
    let first =
      if leb b.k (length b.replacement_cache)
      then pop_front b.replacement_cache
      else b.replacement_cache in
    elim (Bool-cases (leb b.k (length (first ++ x ∷ [])))) [
      | inl full ↦ (
        pop_front first,
        rw full (
            ap (λ es. es ++ x ∷ [])
              (pop_front-append first x (ground (arith, length-append first (x ∷ []), full)))),
      )
      | inr room ↦ (first, rw room refl)
    ]

insert_full :
    (x : NodeEntry) (b : KBucket)
    → has x.id b.entries ≡ false
    → b.k ≤ length b.entries
    → (insert x b).0 ≡ cache x b
unfolding insert
insert_full x b h l = rw h (rw (le→leb _ _ l) refl)

insert_twice :
    (x : NodeEntry) (b : KBucket)
    → has x.id b.entries ≡ false
    → b.k ≤ length b.entries
    → (insert x (insert x b).0).0 ≡ cache x (cache x b)
unfolding cache
insert_twice x b h l =
    ap (λ d. (insert x d).0) (insert_full x b h l) ∙ insert_full x (cache x b) h l

-- An eviction moves the last entry of the cache to the end of the bucket.
evict_promotes :
    (x : NodeEntry) (older : List NodeEntry) (b : KBucket)
    → b.replacement_cache ≡ older ++ x ∷ []
    → ((evict_oldest b).0.entries ≡ pop_front b.entries ++ x ∷ [])
      × ((evict_oldest b).0.replacement_cache ≡ older)
unfolding evict_oldest
evict_promotes x older b h = (rw (h, back-append older x) refl, rw h (pop_back-append older x))

evict_twice :
    (x : NodeEntry) (older : List NodeEntry) (b : KBucket)
    → b.replacement_cache ≡ (older ++ x ∷ []) ++ x ∷ []
    → 1 < length b.entries
    → (evict_oldest (evict_oldest b).0).0.entries
      ≡ (pop_front (pop_front b.entries) ++ x ∷ []) ++ x ∷ []
evict_twice x older b h l =
    let one = evict_promotes x (older ++ x ∷ []) b h in
    let two = evict_promotes x older (evict_oldest b).0 one.1 in
    two.0
    ∙ ap (λ es. pop_front es ++ x ∷ []) one.0
    ∙ ap (λ es. es ++ x ∷ [])
        (pop_front-append (pop_front b.entries) x (omega (arith, length-pop_front b.entries)))

-- Where a bucket of at least two places is full of other nodes, inserting one entry twice and then
-- evicting twice leaves that entry twice at the end of the bucket.
pub evicted_twice :
    (x : NodeEntry) (b : KBucket)
    → 2 ≤ b.k
    → length b.entries ≡ b.k
    → has x.id b.entries ≡ false
    → (evict_oldest (evict_oldest (insert x (insert x b).0).0).0).0.entries
      ≡ (pop_front (pop_front b.entries) ++ x ∷ []) ++ x ∷ []
unfolding cache
evicted_twice x b h l n =
    let (older, e) = cache_twice x b h in
    ap (λ d. (evict_oldest (evict_oldest d).0).0.entries) (insert_twice x b n (omega arith))
    ∙ entries_twice older e
  where
    entries_twice :
        (older : List NodeEntry)
        → (cache x (cache x b)).replacement_cache ≡ (older ++ x ∷ []) ++ x ∷ []
        → (evict_oldest (evict_oldest (cache x (cache x b))).0).0.entries
          ≡ (pop_front (pop_front b.entries) ++ x ∷ []) ++ x ∷ []
    entries_twice older e = evict_twice x older (cache x (cache x b)) e (omega arith)
