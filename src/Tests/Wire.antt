-- ===== src/Tests/Wire.antt =====
-- Frames and chunks at small inputs. Stand-ins take the place of serde and of BLAKE3.
use ephemera_social.Base.{
  ◌⊎◌, ◌≢◌, min, leb, ◌-◌, ◌+◌, ◌≡◌, ◌↔◌, refl, List, [], ◌∷◌, ◌++◌, Option, none, some, true,
  Bytes, length, take, be_bytes, arith, ok, list_ord, nat_ord, map,
}
use ephemera_social.Protocol.Envelope
use ephemera_social.Protocol.Envelope.{ProtocolEnvelope, ping, hops, hops-budget, is_expired}
use ephemera_social.Protocol.Codec.{decode}
use ephemera_social.Protocol.Frames.{encode_all, decode_all, decode_all-encode_all, decode-partial}
use ephemera_social.Media.Chunker.{
  Chunk, ChunkManifest, chunk_with_size, manifest_with_size, reassemble, reassemble_with_manifest,
  slices, number, to_info,
}
use ephemera_social.Media.Chunker.Assembly.{
  genuine, joined, reassemble-genuine, reassemble-chunk, reassemble_with_manifest-only,
}

abbrev envelope : ProtocolEnvelope
envelope = Envelope.new 100 (1 ∷ []) ping (5 ∷ [])

-- A codec that knows one envelope.
to_vec : ProtocolEnvelope → Option Bytes
to_vec e = some (1 ∷ 2 ∷ [])

from_slice : Bytes → Option ProtocolEnvelope
from_slice bytes = some envelope

decode_all-encode_all_example :
    ((encode_all to_vec from_slice (envelope ∷ envelope ∷ []) []).1 ≡ true)
    × (decode_all to_vec from_slice
          (length (envelope ∷ envelope ∷ []))
          ((encode_all to_vec from_slice (envelope ∷ envelope ∷ []) []).0 ++ 9 ∷ [])
        ≡ (9 ∷ [], envelope ∷ envelope ∷ []))
unfolding to_vec from_slice
decode_all-encode_all_example =
    decode_all-encode_all to_vec from_slice (envelope ∷ envelope ∷ []) (9 ∷ [])
      ((1 ∷ 2 ∷ [], refl, refl, omega arith), ((1 ∷ 2 ∷ [], refl, refl, omega arith), tt))

abbrev payload : Bytes
payload = 1 ∷ 2 ∷ []

decode-partial_example :
    decode to_vec from_slice (take 5 (be_bytes 4 (length payload) ++ payload))
    ≡ (take 5 (be_bytes 4 (length payload) ++ payload), ok none)
decode-partial_example = decode-partial to_vec from_slice payload 5 (omega arith) (omega arith)

nine_nodes : (hops 9 envelope).1 ≡ 7
unfolding hops Envelope.new
nine_nodes = refl

hops-budget_example :
    (hops 9 envelope ≡ (
      record envelope {
        hop_count = envelope.hop_count + min 9 (envelope.ttl - envelope.hop_count);
      },
      min 9 (envelope.ttl - envelope.hop_count),
    ))
    × (is_expired (hops 9 envelope).0 ≡ leb (envelope.ttl - envelope.hop_count) 9)
hops-budget_example = hops-budget 9 envelope

digest : Bytes → Bytes
digest bytes = 200 ∷ bytes

abbrev content : Bytes
content = 1 ∷ 2 ∷ 3 ∷ 4 ∷ 5 ∷ []

reassemble-chunk_example :
    (chunks : List Chunk) × (m : ChunkManifest) × (chunk_with_size digest content 2 ≡ some chunks)
    × (manifest_with_size digest content 2 ≡ some m)
    × (reassemble digest chunks ≡ ok content)
    × (reassemble_with_manifest digest chunks m ≡ ok content)
reassemble-chunk_example = reassemble-chunk digest content 1

abbrev pieces : List Chunk
pieces = number digest 0 (slices 5 2 content)

reassemble-genuine_example :
    (reassemble digest pieces ≡ ok content)
    ↔ ((genuine digest 0 pieces ≡ true) × (joined pieces ≡ content))
reassemble-genuine_example = reassemble-genuine digest pieces content

abbrev manifest : ChunkManifest
manifest = record {
  content_hash = 200 ∷ content;
  total_size = 5;
  chunk_count = 3;
  chunk_size = 2;
  chunk_infos = map (to_info (λ b. b)) pieces;
}

made : manifest_with_size digest content 2 ≡ some manifest
unfolding manifest_with_size digest
made = refl

assembled : reassemble_with_manifest digest pieces manifest ≡ ok content
unfolding reassemble_with_manifest digest slices number
assembled = refl

reassemble_with_manifest-only_example :
    (joined pieces ≡ content)
    × (genuine digest 0 pieces ≡ true)
    × ((content ≡ content) ⊎ ((content ≢ content) × (digest content ≡ digest content)))
reassemble_with_manifest-only_example =
    reassemble_with_manifest-only digest content content 2 pieces manifest made assembled
