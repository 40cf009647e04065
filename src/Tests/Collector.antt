-- ===== src/Tests/Collector.antt =====
-- The sweep on a small store, with a stand-in for the hexadecimal notation.
use ephemera_social.Base.{
  ℕ, ◌≡◌, ◌∷◌, refl, [], none, some, true, false, Bytes, nat_ord, list_ord, pair_ord,
}
use ephemera_social.Map.{remove}
use ephemera_social.Collector.{Post, Store, sweep}
use ephemera_social.Collector.Sweep.{IsSwept, sweep-IsSwept}

same_text : Bytes → Bytes
same_text b = b

abbrev post : (expires_at epoch_number : ℕ) → Post
post expires_at epoch_number = record {
  blob_hash = none;
  expires_at = expires_at;
  ttl_seconds = 10;
  is_tombstone = false;
  tombstone_at = none;
  epoch_number = epoch_number;
}

-- Post 1 is expired, post 2 belongs to a key past its age, post 3 is alive.
abbrev store : Store
store = record {
  posts = (1 ∷ [], post 5 7) ∷ (2 ∷ [], post 90 6) ∷ (3 ∷ [], post 90 7) ∷ [];
  media_attachments =
      (11 ∷ [], record { post_hash = 1 ∷ []; thumbnail_hash = some (21 ∷ []) }) ∷ [];
  media_chunks =
      (31 ∷ [], record { media_id = 11 ∷ []; chunk_index = 0; data_bytes = 4 ∷ [] }) ∷ [];
  messages = (8 ∷ [], 40) ∷ (9 ∷ [], 60) ∷ [];
  epoch_keys =
      (6, record { key_expires_at = 30; is_deleted = false; deleted_at = none })
      ∷ (7, record { key_expires_at = 70; is_deleted = false; deleted_at = none })
      ∷ [];
  blobs = (1 ∷ [], 0 ∷ []) ∷ (2 ∷ [], 0 ∷ []) ∷ (3 ∷ [], 0 ∷ []) ∷ (21 ∷ [], 0 ∷ []) ∷ [];
}

swept_posts :
    (sweep same_text 50 10 store).0.posts
    ≡ (
      1 ∷ [],
      record {
        blob_hash = none;
        expires_at = 5;
        ttl_seconds = 10;
        is_tombstone = true;
        tombstone_at = some 50;
        epoch_number = 7;
      },
    )
      ∷ (3 ∷ [], post 90 7)
      ∷ []
unfolding sweep
swept_posts = refl

swept_blobs : (sweep same_text 50 10 store).0.blobs ≡ (3 ∷ [], 0 ∷ []) ∷ []
unfolding sweep remove same_text
swept_blobs = refl

-- One item of each kind is counted.
swept_report : (sweep same_text 50 10 store).1 ≡ record {
  posts_deleted = 1;
  messages_deleted = 1;
  tombstones_purged = 0;
  epoch_keys_destroyed = 1;
  orphaned_blobs_deleted = 1;
}
unfolding sweep remove same_text
swept_report = refl

sweep-IsSwept_example : IsSwept same_text 50 (sweep same_text 50 10 store).0
sweep-IsSwept_example = sweep-IsSwept same_text 50 10 store
