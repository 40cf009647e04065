-- ===== src/Collector/Sweep.antt =====
-- What a sweep leaves in the tables.
use ephemera_social.Base.{
  ℕ, ◌≡◌, ◌∷◌, List, [], some, Bool, true, false, not, ltb, keep, map, Bytes, All, All-keep, arith,
  Bool-cases, inl, inr, if◌then◌else◌,
}
use ephemera_social.Map.{Map}
use ephemera_social.Collector.{
  Post, EpochKey, empty_report, GcReport, Store, is_purgeable, is_outdated, of_destroyed, sweep,
  phase1_expire_content, phase2_purge_tombstones, phase3_destroy_epoch_keys,
  phase4_sweep_orphaned_content,
}

All-drop :
    {A : Type 0} (q : A → Bool) (xs : List A) → All (λ x. q x ≡ false) (keep (λ x. not (q x)) xs)
unfolding keep
All-drop q [] = tt
All-drop q (x ∷ xs) = elim (Bool-cases (q x)) [
  | inl e ↦ rw e (All-drop q xs)
  | inr e ↦ rw e (e, All-drop q xs)
]

module _ (hex_encode : Bytes → Bytes) (now : ℕ) where
  abbrev age : EpochKey → EpochKey
  age k =
      if is_outdated hex_encode now k
      then record k { is_deleted = true; deleted_at = some now }
      else k

  age-live : (k : EpochKey) → is_outdated hex_encode now (age k) ≡ false
  age-live k = ground (arith)

  All-age :
      (m : Map ℕ EpochKey)
      → All {A = ℕ × EpochKey}
          (λ e. is_outdated hex_encode now e.1 ≡ false)
          (map (λ e. (e.0, age e.1)) m)
  All-age [] = tt
  All-age ((i, k) ∷ m) = (age-live k, All-age m)

  -- No post belongs to a destroyed key and no tombstone is past its retention, every key past its
  -- expiry is destroyed, and no message is past its lifetime.
  pub IsSwept : Store → Type 0
  IsSwept s =
      (All {A = Bytes × Post} (λ e. of_destroyed hex_encode s.epoch_keys e.1 ≡ false) s.posts
        × All {A = Bytes × Post} (λ e. is_purgeable hex_encode now e.1 ≡ false) s.posts)
      × (All {A = ℕ × EpochKey} (λ e. is_outdated hex_encode now e.1 ≡ false) s.epoch_keys
          × All {A = Bytes × ℕ} (λ e. ltb e.1 now ≡ false) s.messages)

  -- The last phase removes the posts of destroyed keys and leaves the rest as it is.
  sweep_orphans-IsSwept :
      (batch_size : ℕ) (s : Store) (report : GcReport)
      → All {A = Bytes × Post} (λ e. is_purgeable hex_encode now e.1 ≡ false) s.posts
      → All {A = ℕ × EpochKey} (λ e. is_outdated hex_encode now e.1 ≡ false) s.epoch_keys
      → All {A = Bytes × ℕ} (λ e. ltb e.1 now ≡ false) s.messages
      → IsSwept (phase4_sweep_orphaned_content hex_encode batch_size s report).0
  unfolding phase4_sweep_orphaned_content IsSwept
  sweep_orphans-IsSwept batch_size s report p k m =
      let kept : Bytes × Post → Bool = λ e. not (of_destroyed hex_encode s.epoch_keys e.1) in
      (
        (
          All-drop {A = Bytes × Post} (λ e. of_destroyed hex_encode s.epoch_keys e.1) s.posts,
          All-keep (λ e. is_purgeable hex_encode now e.1 ≡ false) kept s.posts p,
        ),
        (k, m),
      )

  -- After a sweep no post belongs to a destroyed key or is a tombstone past its retention, no key past
  -- its expiry is live, and no message is past its lifetime, whatever the size of the batch.
  pub sweep-IsSwept : (batch_size : ℕ) (s : Store) → IsSwept (sweep hex_encode now batch_size s).0
  unfolding sweep phase1_expire_content phase2_purge_tombstones phase3_destroy_epoch_keys
  sweep-IsSwept batch_size s =
      let first = phase1_expire_content hex_encode now batch_size s empty_report in
      let second = phase2_purge_tombstones hex_encode now first.0 first.1 in
      let third = phase3_destroy_epoch_keys hex_encode now second.0 second.1 in
      sweep_orphans-IsSwept batch_size third.0 third.1
        (All-drop {A = Bytes × Post} (λ e. is_purgeable hex_encode now e.1) first.0.posts)
        (All-age first.0.epoch_keys) (All-drop {A = Bytes × ℕ} (λ e. ltb e.1 now) s.messages)
