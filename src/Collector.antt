-- ===== src/Collector.antt =====
-- crates/ephemera-store/src/gc.rs: one sweep over the tables of crates/ephemera-store/src/metadata.rs and
-- the stored blobs. Instants are not negative. The directories of days, which phase 4b removes when they
-- are empty, and the events are left out.
pub mod Sweep
use ephemera_social.Base.{
  ℕ, ◌+◌, ◌*◌, List, [], ◌∷◌, Option, none, some, Bool, true, false, not, ◌&&◌, ltb, if◌then◌else◌,
  any, keep, map, take, length, same, list_ord, nat_ord, pair_ord, Bytes, is_some,
}
use ephemera_social.Map
use ephemera_social.Map.{Map, get, insert, remove, contains_key, retain, keys}

pub record Post : Type 0 where
  pub blob_hash : Option Bytes
  pub expires_at : ℕ
  pub ttl_seconds : ℕ
  pub is_tombstone : Bool
  pub tombstone_at : Option ℕ
  pub epoch_number : ℕ

pub record EpochKey : Type 0 where
  pub key_expires_at : ℕ
  pub is_deleted : Bool
  pub deleted_at : Option ℕ

pub record Attachment : Type 0 where
  pub post_hash : Bytes
  pub thumbnail_hash : Option Bytes

pub record MediaChunk : Type 0 where
  pub media_id : Bytes
  pub chunk_index : ℕ
  pub data_bytes : Bytes

-- The tables by their keys, with the columns that a sweep reads or writes, and the blobs in the store.
pub record Store : Type 0 where
  pub posts : Map Bytes Post
  pub media_attachments : Map Bytes Attachment
  pub media_chunks : Map Bytes MediaChunk
  pub messages : Map Bytes ℕ
  pub epoch_keys : Map ℕ EpochKey
  pub blobs : Map Bytes Bytes

pub record GcReport : Type 0 where
  pub posts_deleted : ℕ
  pub messages_deleted : ℕ
  pub tombstones_purged : ℕ
  pub epoch_keys_destroyed : ℕ
  pub orphaned_blobs_deleted : ℕ

abbrev pub empty_report : GcReport
empty_report = record {
  posts_deleted = 0;
  messages_deleted = 0;
  tombstones_purged = 0;
  epoch_keys_destroyed = 0;
  orphaned_blobs_deleted = 0;
}

-- `hex::encode` is a parameter.
module _ (hex_encode : Bytes → Bytes) where
  abbrev pub blob_key : Bytes → Option Bytes → Bytes
  blob_key hash none = hex_encode hash
  blob_key hash (some blob) = blob

  -- `content.delete` for each row: the blobs that are left, and how many there were.
  unfoldable pub delete_blobs : List (Bytes × Post) → Map Bytes Bytes → Map Bytes Bytes × ℕ
  delete_blobs [] blobs = (blobs, 0)
  delete_blobs ((hash, post) ∷ rows) blobs =
      let key = blob_key hash post.blob_hash in
      let rest = delete_blobs rows (remove key blobs) in
      (rest.0, (if contains_key key blobs then 1 else 0) + rest.1)

  abbrev pub is_expired : ℕ → Post → Bool
  is_expired now p = ltb p.expires_at now && not p.is_tombstone

  unfoldable pub expired_entries : (now batch_size : ℕ) → Map Bytes Post → List (Bytes × Post)
  unfolding keep
  expired_entries now batch_size posts = take batch_size (keep (λ e. is_expired now e.1) posts)

  abbrev pub attached : Bytes → Option Attachment → Bool
  attached hash none = false
  attached hash (some a) = same a.post_hash hash

  -- The thumbnails of a post's attachments go from the blobs.
  abbrev pub drop_thumbnail : Option Bytes → Map Bytes Bytes → Map Bytes Bytes
  drop_thumbnail none blobs = blobs
  drop_thumbnail (some key) blobs = remove key blobs

  unfoldable pub drop_thumbnails : Bytes → Map Bytes Attachment → Map Bytes Bytes → Map Bytes Bytes
  drop_thumbnails hash [] blobs = blobs
  drop_thumbnails hash ((media, a) ∷ rows) blobs =
      let rest = drop_thumbnails hash rows in
      if same a.post_hash hash then rest (drop_thumbnail a.thumbnail_hash blobs) else rest blobs

  -- 1a-ii. The media of the expired posts.
  unfoldable pub drop_media : List (Bytes × Post) → Store → Store
  unfolding drop_thumbnails keep get
  drop_media [] s = s
  drop_media ((hash, post) ∷ rows) s = drop_media rows (record s {
    media_chunks =
        retain (λ e. not (attached hash (get e.1.media_id s.media_attachments))) s.media_chunks;
    blobs = drop_thumbnails hash s.media_attachments s.blobs;
    media_attachments = retain (λ e. not (same e.1.post_hash hash)) s.media_attachments;
  })

  abbrev pub mark : ℕ → List Bytes → Bytes → Post → Post
  mark now hashes hash p =
      if any (same hash) hashes
      then record p { is_tombstone = true; tombstone_at = some now }
      else p

  -- 1b. The tombstones of the batch.
  unfoldable pub mark_all : ℕ → List Bytes → Map Bytes Post → Map Bytes Post
  unfolding any
  mark_all now hashes posts = map (λ e. (e.0, mark now hashes e.0 e.1)) posts

  unfoldable pub phase1_expire_content : (now batch_size : ℕ) → Store → GcReport → Store × GcReport
  unfolding expired_entries delete_blobs drop_media mark_all keep
  phase1_expire_content now batch_size s report =
      let entries = expired_entries now batch_size s.posts in
      let deleted = delete_blobs entries s.blobs in
      let cleaned = drop_media entries (record s { blobs = deleted.0 }) in
      let gone = keep (λ e. ltb e.1 now) s.messages in
      (
        record cleaned {
          posts = mark_all now (keys entries) s.posts;
          messages = retain (λ e. not (ltb e.1 now)) s.messages;
        },
        record report {
          posts_deleted = report.posts_deleted + deleted.1;
          messages_deleted = length gone;
        },
      )

  -- `tombstone_at IS NOT NULL AND tombstone_at + (ttl_seconds * 3) < ?1`
  abbrev pub retention_over : ℕ → Post → Option ℕ → Bool
  retention_over now p none = false
  retention_over now p (some at) = ltb (at + p.ttl_seconds * 3) now

  abbrev pub is_purgeable : ℕ → Post → Bool
  is_purgeable now p = p.is_tombstone && retention_over now p p.tombstone_at

  unfoldable pub phase2_purge_tombstones : (now : ℕ) → Store → GcReport → Store × GcReport
  unfolding keep
  phase2_purge_tombstones now s report = (
    record s { posts = retain (λ e. not (is_purgeable now e.1)) s.posts },
    record report { tombstones_purged = length (keep (λ e. is_purgeable now e.1) s.posts) },
  )

  abbrev pub is_outdated : ℕ → EpochKey → Bool
  is_outdated now k = not k.is_deleted && ltb k.key_expires_at now

  unfoldable pub phase3_destroy_epoch_keys : (now : ℕ) → Store → GcReport → Store × GcReport
  unfolding keep
  phase3_destroy_epoch_keys now s report = (
    record s {
      epoch_keys =
          map
            (λ e. (
              e.0,
              if is_outdated now e.1
                  then record e.1 { is_deleted = true; deleted_at = some now }
                  else e.1,
            ))
            s.epoch_keys;
    },
    record report { epoch_keys_destroyed = length (keep (λ e. is_outdated now e.1) s.epoch_keys) },
  )

  abbrev pub destroyed : Option EpochKey → Bool
  destroyed none = false
  destroyed (some k) = k.is_deleted

  abbrev pub of_destroyed : Map ℕ EpochKey → Post → Bool
  of_destroyed epoch_keys p = destroyed (get p.epoch_number epoch_keys)

  unfoldable pub phase4_sweep_orphaned_content :
      (batch_size : ℕ) → Store → GcReport → Store × GcReport
  unfolding keep get delete_blobs
  phase4_sweep_orphaned_content batch_size s report =
      let orphaned = take batch_size (keep (λ e. of_destroyed s.epoch_keys e.1) s.posts) in
      let deleted = delete_blobs orphaned s.blobs in
      (
        record s {
          posts = retain (λ e. not (of_destroyed s.epoch_keys e.1)) s.posts;
          blobs = deleted.0;
        },
        record report { orphaned_blobs_deleted = report.orphaned_blobs_deleted + deleted.1 },
      )

  unfoldable pub sweep : (now batch_size : ℕ) → Store → Store × GcReport
  unfolding phase1_expire_content phase2_purge_tombstones phase3_destroy_epoch_keys
      phase4_sweep_orphaned_content
  sweep now batch_size s =
      let first = phase1_expire_content now batch_size s empty_report in
      let second = phase2_purge_tombstones now first.0 first.1 in
      let third = phase3_destroy_epoch_keys now second.0 second.1 in
      phase4_sweep_orphaned_content batch_size third.0 third.1
