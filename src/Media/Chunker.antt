-- ===== src/Media/Chunker.antt =====
-- crates/ephemera-media/src/chunker.rs. BLAKE3 is a parameter; a digest stands for its content id.
pub mod Assembly
use ephemera_social.Base.{
  ℕ, zero, suc, ◌+◌, ◌*◌, ◌%◌, List, [], ◌∷◌, ◌++◌, Option, none, some, Bool, true, false, not,
  ◌==◌, if◌then◌else◌, length, take, drop, map, same, list_ord, nat_ord, Bytes, Result, ok, err,
  as_u32,
}

abbrev pub default_chunk_size : ℕ
default_chunk_size = 256 * 1024

pub record Chunk : Type 0 where
  pub index : ℕ
  pub hash : Bytes
  pub bytes : Bytes
  pub size : ℕ

pub record ChunkInfo : Type 0 where
  pub info_index : ℕ
  pub info_hash : Bytes
  pub info_size : ℕ

pub record ChunkManifest : Type 0 where
  pub content_hash : Bytes
  pub total_size : ℕ
  pub chunk_count : ℕ
  pub chunk_size : ℕ
  pub chunk_infos : List ChunkInfo

pub data MediaError : Type 0 where
  index_mismatch : (expected got : ℕ) → MediaError
  hash_mismatch : (index : ℕ) → MediaError
  count_mismatch : (expected got : ℕ) → MediaError
  content_mismatch : MediaError

-- `chunks(cs)` for a positive size: at most as many slices as there are bytes.
unfoldable pub slices : (fuel : ℕ) → ℕ → Bytes → List Bytes
slices zero cs bytes = []
slices (suc fuel) cs [] = []
slices (suc fuel) cs (b ∷ bs) =
    let rest = slices fuel cs (drop cs (b ∷ bs)) in take cs (b ∷ bs) ∷ rest

module _ (blake3 : Bytes → Bytes) where
  abbrev pub to_chunk : ℕ → Bytes → Chunk
  to_chunk i slice = record {
    index = as_u32 i;
    hash = blake3 slice;
    bytes = slice;
    size = length slice;
  }

  unfoldable pub number : ℕ → List Bytes → List Chunk
  number i [] = []
  number i (slice ∷ rest) = to_chunk i slice ∷ number (suc i) rest

  -- `chunks` panics for the size 0: `none`.
  unfoldable pub chunk_with_size : Bytes → ℕ → Option (List Chunk)
  unfolding slices number
  chunk_with_size bytes zero = none
  chunk_with_size bytes (suc cs) = some (number 0 (slices (length bytes) (suc cs) bytes))

  unfoldable pub chunk : Bytes → Option (List Chunk)
  unfolding chunk_with_size
  chunk bytes = chunk_with_size bytes default_chunk_size

  abbrev pub to_info : Chunk → ChunkInfo
  to_info c = record { info_index = c.index; info_hash = c.hash; info_size = as_u32 c.size }

  abbrev pub manifest_of : Bytes → ℕ → List Chunk → ChunkManifest
  manifest_of bytes chunk_size chunks = record {
    content_hash = blake3 bytes;
    total_size = length bytes;
    chunk_count = as_u32 (length (map to_info chunks));
    chunk_size = chunk_size;
    chunk_infos = map to_info chunks;
  }

  unfoldable pub manifest_with_size : Bytes → ℕ → Option ChunkManifest
  unfolding chunk_with_size
  manifest_with_size bytes chunk_size = elim (chunk_with_size bytes chunk_size) [
    | none ↦ none
    | some chunks ↦ some (manifest_of bytes chunk_size chunks)
  ]

  unfoldable pub manifest : Bytes → Option ChunkManifest
  unfolding manifest_with_size
  manifest bytes = manifest_with_size bytes default_chunk_size

  -- The loop over the indices: the first error.
  unfoldable pub check_indices : ℕ → List Chunk → Option MediaError
  check_indices i [] = none
  check_indices i (c ∷ cs) =
      if c.index == as_u32 i then check_indices (suc i) cs else some (index_mismatch i c.index)

  -- The loop that verifies and collects.
  unfoldable pub assemble : Bytes → List Chunk → Result Bytes MediaError
  assemble assembled [] = ok assembled
  assemble assembled (c ∷ cs) =
      if not (same (blake3 c.bytes) c.hash)
      then err (hash_mismatch c.index)
      else assemble (assembled ++ c.bytes) cs

  unfoldable pub reassemble : List Chunk → Result Bytes MediaError
  unfolding check_indices assemble
  reassemble [] = ok []
  reassemble (c ∷ cs) = elim (check_indices 0 (c ∷ cs)) [
    | some e ↦ err e
    | none ↦ assemble [] (c ∷ cs)
  ]

  unfoldable pub reassemble_with_manifest : List Chunk → ChunkManifest → Result Bytes MediaError
  unfolding reassemble
  reassemble_with_manifest chunks manifest =
      if not (as_u32 (length chunks) == manifest.chunk_count)
      then err (count_mismatch manifest.chunk_count (length chunks))
      else elim (reassemble chunks) [
        | err e ↦ err e
        | ok bytes ↦
            if not (same (blake3 bytes) manifest.content_hash)
            then err content_mismatch
            else ok bytes
      ]
