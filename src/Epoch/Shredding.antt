-- ===== src/Epoch/Shredding.antt =====
-- A destroyed key is gone for good; a sweep misses a key that is not in the cache.
use ephemera_social.Base.{
  ℕ, ◌+◌, ◌-◌, ◌<◌, ◌≡◌, refl, List, [], ◌∷◌, ◌++◌, none, some, true, false, ltb, ◌==◌,
  if◌then◌else◌, any, keep, nat_ord, Bytes, Result, ok, err, arith, Option-cases, Bool-cases, inl,
  inr,
}
use ephemera_social.Map.{Map, get, remove, keys}
use ephemera_social.Map.Laws.{get-insert, get-remove}
use ephemera_social.Epoch.{
  EpochKeyEntry, EpochKeyManager, EpochError, contains, push_new, ensure_key, current_epoch_key,
  epoch_key_for, rotate, rotated, retained, destroy_all, destroy_expired_keys_at, destroy_key,
  epoch_id_for_timestamp,
}

-- No key of the epoch is at hand, and none will be derived.
abbrev pub IsShredded : ℕ → EpochKeyManager → Type 0
IsShredded e s = (contains e s.destroyed_epochs ≡ true) × (get e s.cached ≡ none)

any-append :
    (e d : ℕ) (es : List ℕ) → contains e (es ++ d ∷ []) ≡ (if contains e es then true else d == e)
unfolding any
any-append e d [] = ground arith
any-append e d (x ∷ es) = ground (arith, any-append e d es)

pushed : (e d : ℕ) (es : List ℕ) → contains e es ≡ true → contains e (push_new d es) ≡ true
pushed e d es h = ground (arith, h, any-append e d es)

pushed_self : (e : ℕ) (es : List ℕ) → contains e (push_new e es) ≡ true
pushed_self e es = ground (arith, any-append e e es)

destroy_all-IsShredded :
    (e : ℕ) (es : List ℕ) (s : EpochKeyManager) → IsShredded e s → IsShredded e (destroy_all es s)
unfolding destroy_all
destroy_all-IsShredded e [] s v = v
destroy_all-IsShredded e (d ∷ es) s v =
    destroy_all-IsShredded e es _
      (pushed e d s.destroyed_epochs v.0, ground (arith, v.1, get-remove e d s.cached))

destroy_all-member :
    (e : ℕ) (es : List ℕ) (s : EpochKeyManager)
    → contains e es ≡ true
    → IsShredded e (destroy_all es s)
unfolding destroy_all any
destroy_all-member e [] s h = absurd (ground arith)
destroy_all-member e (d ∷ es) s h = elim (Bool-cases (d == e)) [
  | inl x ↦ destroy_all-IsShredded e es _ (
    ground (arith, x, pushed_self e s.destroyed_epochs),
    ground (arith, x, get-remove e d s.cached),
  )
  | inr x ↦ destroy_all-member e es _ (ground (arith, x, h))
]

cached-listed :
    (e cutoff : ℕ) (entry : EpochKeyEntry) (m : Map ℕ EpochKeyEntry)
    → get e m ≡ some entry
    → ltb e cutoff ≡ true
    → contains e (keep (λ d. ltb d cutoff) (keys m)) ≡ true
unfolding get keep any
cached-listed e cutoff entry [] h l = absurd (ground arith)
cached-listed e cutoff entry ((d, x) ∷ m) h l = ground (arith, h, l, cached-listed e cutoff entry m)

not_listed :
    (e cutoff : ℕ) (m : Map ℕ EpochKeyEntry)
    → get e m ≡ none
    → contains e (keep (λ d. ltb d cutoff) (keys m)) ≡ false
unfolding get keep any
not_listed e cutoff [] h = refl
not_listed e cutoff ((d, x) ∷ m) h = ground (arith, h, not_listed e cutoff m)

untouched :
    (e : ℕ) (es : List ℕ) (s : EpochKeyManager)
    → contains e es ≡ false
    → get e s.cached ≡ none
    → contains e s.destroyed_epochs ≡ false
    → (get e (destroy_all es s).cached ≡ none)
      × (contains e (destroy_all es s).destroyed_epochs ≡ false)
      × ((destroy_all es s).master ≡ s.master)
unfolding destroy_all any
untouched e [] s n h l = (h, l, refl)
untouched e (d ∷ es) s n h l =
    untouched e es
      (record s { cached = remove d s.cached; destroyed_epochs = push_new d s.destroyed_epochs })
      (ground (arith, n)) (ground (arith, h, get-remove e d s.cached))
      (ground (arith, n, l, any-append e d s.destroyed_epochs))

-- A call of the manager, with the clock's reading.
pub data Call : Type 0 where
  current rotation sweep : (now : ℕ) → Call
  key_for : (now epoch_id : ℕ) → Call
  destruction : (epoch_id : ℕ) → Call

module _ (derive_epoch_key : Bytes → ℕ → Bytes) where
  unfoldable pub perform : Call → EpochKeyManager → EpochKeyManager
  unfolding current_epoch_key rotate destroy_expired_keys_at epoch_key_for destroy_key
  perform (current now) s = (current_epoch_key derive_epoch_key now s).0
  perform (rotation now) s = (rotate derive_epoch_key now s).0
  perform (sweep now) s = (destroy_expired_keys_at now s).0
  perform (key_for now e) s = (epoch_key_for derive_epoch_key now e s).0
  perform (destruction e) s = (destroy_key e s).0

  unfoldable pub perform_all : List Call → EpochKeyManager → EpochKeyManager
  unfolding perform
  perform_all [] s = s
  perform_all (c ∷ cs) s = perform_all cs (perform c s)

  ensure_key-IsShredded :
      (now d e : ℕ) (s : EpochKeyManager)
      → IsShredded e s
      → IsShredded e (ensure_key derive_epoch_key now d s).0
  unfolding ensure_key
  ensure_key-IsShredded now d e s v =
      let entry : EpochKeyEntry = record {
        key = derive_epoch_key s.master d;
        epoch_id = d;
        created_at = now;
        destroyed = false;
      } in
      elim (Option-cases (get d s.cached)) [
        | inl h ↦ ground (arith, h, v.0, v.1, get-insert e d entry s.cached)
        | inr (x, h) ↦ ground (arith, h, v.0, v.1)
      ]

  sweep-IsShredded :
      (now e : ℕ) (s : EpochKeyManager)
      → IsShredded e s
      → IsShredded e (destroy_expired_keys_at now s).0
  unfolding destroy_expired_keys_at
  sweep-IsShredded now e s v = elim (Bool-cases (ltb 30 (epoch_id_for_timestamp now))) [
    | inl x ↦ rw x (
        destroy_all-IsShredded e
          (keep (λ d. ltb d (epoch_id_for_timestamp now - 30)) (keys s.cached)) s v)
    | inr x ↦ rw x v
  ]

  key_for-IsShredded :
      (now d e : ℕ) (s : EpochKeyManager)
      → IsShredded e s
      → IsShredded e (epoch_key_for derive_epoch_key now d s).0
  unfolding epoch_key_for
  key_for-IsShredded now d e s v = elim (Bool-cases (contains d s.destroyed_epochs)) [
    | inl x ↦ rw x v
    | inr x ↦ rw x (kept (ensure_key derive_epoch_key now d s) (ensure_key-IsShredded now d e s v))
  ]
    where
      kept :
          (r : EpochKeyManager × Result Bytes EpochError)
          → IsShredded e r.0
          → IsShredded e (retained derive_epoch_key r).0
      kept (t, ok x) w = w
      kept (t, err x) w = w

  perform-IsShredded :
      (e : ℕ) (c : Call) (s : EpochKeyManager) → IsShredded e s → IsShredded e (perform c s)
  unfolding perform current_epoch_key rotate destroy_key
  perform-IsShredded e (current now) s v =
      ensure_key-IsShredded now (epoch_id_for_timestamp now) e s v
  perform-IsShredded e (rotation now) s v =
      kept_by_rotation (ensure_key derive_epoch_key now (epoch_id_for_timestamp now) s)
        (ensure_key-IsShredded now (epoch_id_for_timestamp now) e s v)
    where
      kept_by_rotation :
          (r : EpochKeyManager × Result Bytes EpochError)
          → IsShredded e r.0
          → IsShredded e (rotated derive_epoch_key (epoch_id_for_timestamp now) r).0
      kept_by_rotation (t, ok x) w = w
      kept_by_rotation (t, err x) w = w
  perform-IsShredded e (sweep now) s v = sweep-IsShredded now e s v
  perform-IsShredded e (key_for now d) s v = key_for-IsShredded now d e s v
  perform-IsShredded e (destruction d) s v =
      (pushed e d s.destroyed_epochs v.0, ground (arith, v.1, get-remove e d s.cached))

  perform_all-IsShredded :
      (e : ℕ) (cs : List Call) (s : EpochKeyManager)
      → IsShredded e s
      → IsShredded e (perform_all cs s)
  unfolding perform_all
  perform_all-IsShredded e [] s v = v
  perform_all-IsShredded e (c ∷ cs) s v =
      perform_all-IsShredded e cs (perform c s) (perform-IsShredded e c s v)

  -- A sweep destroys every key at hand that is more than 30 days old, and no later calls bring it
  -- back: the manager has it no more and gives none for the epoch.
  pub sweep-shreds :
      (now later e : ℕ) (entry : EpochKeyEntry) (cs : List Call) (s : EpochKeyManager)
      → get e s.cached ≡ some entry
      → e + 30 < epoch_id_for_timestamp now
      → (get e (perform_all cs (destroy_expired_keys_at now s).0).cached ≡ none)
        × (epoch_key_for derive_epoch_key later e (perform_all cs (destroy_expired_keys_at now s).0)
            ≡ (perform_all cs (destroy_expired_keys_at now s).0, ok none))
  unfolding destroy_expired_keys_at epoch_key_for
  sweep-shreds now later e entry cs s h l =
      let cutoff = epoch_id_for_timestamp now - 30 in
      let old : ltb 30 (epoch_id_for_timestamp now) ≡ true = ground (arith, l) in
      let swept =
        destroy_all-member e (keep (λ d. ltb d cutoff) (keys s.cached)) s
          (cached-listed e cutoff entry s.cached h (ground (arith, l))) in
      let v = perform_all-IsShredded e cs _ swept in rw old (v.1, rw v.0 refl)

  -- A key that is not in the cache, and whose epoch is not on the list of destroyed epochs yet, is not
  -- destroyed by a sweep at any time: asked for afterwards, it is derived again from the master secret,
  -- however old its epoch is.
  pub sweep-misses :
      (now later e : ℕ) (s : EpochKeyManager)
      → get e s.cached ≡ none
      → contains e s.destroyed_epochs ≡ false
      → (epoch_key_for derive_epoch_key later e (destroy_expired_keys_at now s).0).1
        ≡ ok (some (derive_epoch_key s.master e))
  unfolding destroy_expired_keys_at epoch_key_for ensure_key
  sweep-misses now later e s h l =
      let cutoff = epoch_id_for_timestamp now - 30 in
      elim (Bool-cases (ltb 30 (epoch_id_for_timestamp now))) [
        | inr x ↦ ground (arith, x, h, l)
        | inl x ↦
            let t =
              untouched e (keep (λ d. ltb d cutoff) (keys s.cached)) s
                (not_listed e cutoff s.cached h) h l in
            ground (arith, x, t.0, t.1, t.2)
      ]
