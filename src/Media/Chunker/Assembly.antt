-- ===== src/Media/Chunker/Assembly.antt =====
-- What is chunked comes together again, and nothing else does.
use ephemera_social.Base.{
  ℕ, zero, suc, ◌≤◌, ◌≡◌, ◌↔◌, ◌⊎◌, ◌≢◌, same_cases, inl, inr, refl, sym, ap, ◌∙◌, List, [], ◌∷◌,
  ◌++◌, none, some, Bool, true, false, ◌==◌, if◌then◌else◌, length, take, drop, map, same, list_ord,
  nat_ord, list_self, list_eq, Bytes, ok, as_u32, arith, take-append-drop, length-drop, Bool-cases,
}
use mathlib.Core.List.{append_assoc, append-nil}
use ephemera_social.Media.Chunker.{
  Chunk, ChunkManifest, slices, number, chunk_with_size, manifest_with_size, manifest_of, to_info,
  check_indices, assemble, reassemble, reassemble_with_manifest,
}

-- The bytes of the chunks in order.
unfoldable pub joined : List Chunk → Bytes
joined [] = []
joined (c ∷ cs) = c.bytes ++ joined cs

-- Every hash is that of its bytes, and the indices count from `i` on.
unfoldable pub genuine : (Bytes → Bytes) → ℕ → List Chunk → Bool
genuine blake3 i [] = true
genuine blake3 i (c ∷ cs) =
    if c.index == as_u32 i
    then (if same (blake3 c.bytes) c.hash then genuine blake3 (suc i) cs else false)
    else false

length-infos : (cs : List Chunk) → length (map (to_info (λ b. b)) cs) ≡ length cs
length-infos [] = refl
length-infos (c ∷ cs) = ap suc (length-infos cs)

module _ (blake3 : Bytes → Bytes) where
  slices-joined :
      (fuel i cs : ℕ) (bytes : Bytes)
      → length bytes ≤ fuel
      → joined (number blake3 i (slices fuel (suc cs) bytes)) ≡ bytes
  unfolding joined number slices
  slices-joined zero i cs [] h = refl
  slices-joined zero i cs (b ∷ bs) h = absurd (omega arith)
  slices-joined (suc fuel) i cs [] h = refl
  slices-joined (suc fuel) i cs (b ∷ bs) h =
      ap (λ r. take (suc cs) (b ∷ bs) ++ r)
        (slices-joined fuel (suc i) cs (drop cs bs) (omega (arith, length-drop cs bs)))
      ∙ take-append-drop (suc cs) (b ∷ bs)

  number-genuine : (i : ℕ) (ss : List Bytes) → genuine blake3 i (number blake3 i ss) ≡ true
  unfolding genuine number
  number-genuine i [] = refl
  number-genuine i (s ∷ ss) =
      ground (arith, number-genuine (suc i) ss, list_self {A = ℕ} (blake3 s))

  genuine-loops :
      (i : ℕ) (assembled : Bytes) (cs : List Chunk)
      → genuine blake3 i cs ≡ true
      → (check_indices blake3 i cs ≡ none)
        × (assemble blake3 assembled cs ≡ ok (assembled ++ joined cs))
  unfolding genuine check_indices assemble joined
  genuine-loops i assembled [] h = (refl, ap ok (sym (append-nil assembled)))
  genuine-loops i assembled (c ∷ cs) h = ground (
    arith,
    h,
    genuine-loops (suc i) (assembled ++ c.bytes) cs,
    append_assoc assembled c.bytes (joined cs),
  )

  loops-genuine :
      (i : ℕ) (assembled bytes : Bytes) (cs : List Chunk)
      → check_indices blake3 i cs ≡ none
      → assemble blake3 assembled cs ≡ ok bytes
      → genuine blake3 i cs ≡ true
  unfolding genuine check_indices assemble
  loops-genuine i assembled bytes [] h k = refl
  loops-genuine i assembled bytes (c ∷ cs) h k =
      ground (arith, h, k, loops-genuine (suc i) (assembled ++ c.bytes) bytes cs)

  -- `reassemble` gives the bytes of the chunks in order exactly if the indices count up from 0 and
  -- every hash is that of its chunk's bytes.
  pub reassemble-genuine :
      (cs : List Chunk) (bytes : Bytes)
      → (reassemble blake3 cs ≡ ok bytes) ↔ ((genuine blake3 0 cs ≡ true) × (joined cs ≡ bytes))
  unfolding reassemble genuine joined
  reassemble-genuine [] bytes = ground arith
  reassemble-genuine (c ∷ cs) bytes = elim (Bool-cases (genuine blake3 0 (c ∷ cs))) [
    | inl g ↦ ground (arith, g, genuine-loops 0 [] (c ∷ cs) g)
    | inr g ↦ ground (arith, g, loops-genuine 0 [] bytes (c ∷ cs))
  ]

  -- Content that is cut into chunks of any positive size comes together again, and against its own
  -- manifest too.
  pub reassemble-chunk :
      (bytes : Bytes) (cs : ℕ)
      → (chunks : List Chunk) × (m : ChunkManifest) × (chunk_with_size blake3 bytes (suc cs)
          ≡ some chunks)
        × (manifest_with_size blake3 bytes (suc cs) ≡ some m)
        × (reassemble blake3 chunks ≡ ok bytes)
        × (reassemble_with_manifest blake3 chunks m ≡ ok bytes)
  unfolding chunk_with_size manifest_with_size reassemble_with_manifest
  reassemble-chunk bytes cs =
      let chunks = number blake3 0 (slices (length bytes) (suc cs) bytes) in
      let whole : reassemble blake3 chunks ≡ ok bytes = (reassemble-genuine chunks bytes).1 (
        number-genuine 0 (slices (length bytes) (suc cs) bytes),
        slices-joined (length bytes) 0 cs bytes (omega arith),
      ) in
      (
        chunks,
        manifest_of blake3 bytes (suc cs) chunks,
        refl,
        refl,
        whole,
        ground (arith, whole, list_self {A = ℕ} (blake3 bytes), length-infos chunks),
      )

  manifest-content_hash :
      (bytes : Bytes) (cs : ℕ) (m : ChunkManifest)
      → manifest_with_size blake3 bytes cs ≡ some m
      → m.content_hash ≡ blake3 bytes
  unfolding manifest_with_size chunk_with_size
  manifest-content_hash bytes zero m e = absurd (ground arith)
  manifest-content_hash bytes (suc cs) m e = ground (arith, e)

  -- Chunks that come together against the manifest of some content are the bytes that are returned, in
  -- order, each with its own hash and index, and what is returned is that content, or another one with
  -- the same digest.
  pub reassemble_with_manifest-only :
      (bytes other : Bytes) (cs : ℕ) (chunks : List Chunk) (m : ChunkManifest)
      → manifest_with_size blake3 bytes cs ≡ some m
      → reassemble_with_manifest blake3 chunks m ≡ ok other
      → (joined chunks ≡ other)
        × (genuine blake3 0 chunks ≡ true)
        × ((other ≡ bytes) ⊎ ((other ≢ bytes) × (blake3 other ≡ blake3 bytes)))
  unfolding reassemble_with_manifest
  reassemble_with_manifest-only bytes other cs chunks m e f =
      let h = manifest-content_hash bytes cs m e in
      let whole : reassemble blake3 chunks ≡ ok other = ground (arith, f) in
      let digest : blake3 other ≡ m.content_hash =
        ground (arith, f, whole, list_eq {A = ℕ} (blake3 other) m.content_hash) in
      let parts = (reassemble-genuine chunks other).0 whole in
      (
        parts.1,
        parts.0,
        elim (same_cases other bytes) [ inl eqs ↦ inl eqs.1 | inr diff ↦ inr (diff.1, digest ∙ h) ],
      )
