-- ===== src/Peoci/Spec/RoundTrip.antt =====
-- Layers that are turned into descriptors of oci_spec and back.
use program_explorer.Prelude.{ℕ, ◌≡◌, refl, Option, none, some, List, [], ◌∷◌, ◌++◌, length}
use program_explorer.Prelude.Bytes.{Bytes, bytes_eq_refl}
use program_explorer.Prelude.Result.{ok, err}
use program_explorer.Peoci.Spec.Oci.{OciDigest, DigestAlgorithm, Descriptor}
use program_explorer.Peoci.Spec.{
  Error, MediaType, image_layer, image_layer_gzip, image_layer_zstd, docker_image_layer_gzip,
  Digest, sha256, LayerDescriptor, docker_gzip, media_type_from, oci_media_type, digest_from,
  hex_decode, oci_digest, layer_descriptor_from, layers_from, image_manifest_from, descriptor_from,
}

-- The crate hex and the parser of digests on 32 bytes: the digest is the encoding, which decodes to
-- the bytes.
pub record IsHex (decode_to_slice : ℕ → Bytes → Option Bytes)
    (parse_encoded : Bytes → Option OciDigest) : Type 0 where
  pub encode : Bytes → Bytes
  pub parsed :
      (bytes : Bytes)
      → length bytes ≡ 32
      → parse_encoded bytes
        ≡ some (record { algorithm = DigestAlgorithm.sha256; digest = encode bytes })
  pub decoded : (bytes : Bytes) → length bytes ≡ 32 → decode_to_slice 32 (encode bytes) ≡ some bytes

abbrev pub digest_bytes : Digest → Bytes
digest_bytes (sha256 bytes) = bytes

media_type-oci : (m : MediaType) → media_type_from (oci_media_type m) ≡ ok m
unfolding media_type_from oci_media_type
media_type-oci image_layer = refl
media_type-oci image_layer_gzip = refl
media_type-oci image_layer_zstd = refl
media_type-oci docker_image_layer_gzip = rw (bytes_eq_refl docker_gzip) refl

module _ (decode_to_slice : ℕ → Bytes → Option Bytes) (parse_encoded : Bytes → Option OciDigest)
    (hex : IsHex decode_to_slice parse_encoded) where
  -- A layer with a digest of 32 bytes has a descriptor, without a panic, which is turned back into
  -- the layer.
  pub layer_descriptor-descriptor :
      (l : LayerDescriptor)
      → length (digest_bytes l.digest) ≡ 32
      → (d : Descriptor) × (descriptor_from parse_encoded l ≡ some d)
        × (layer_descriptor_from decode_to_slice d ≡ ok l)
  unfolding descriptor_from oci_digest layer_descriptor_from digest_from hex_decode
  layer_descriptor-descriptor l h = go l.media_type l.digest l.size h
    where
      go :
          (m : MediaType) (x : Digest) (n : ℕ)
          → length (digest_bytes x) ≡ 32
          → let l : LayerDescriptor = record { media_type = m; digest = x; size = n } in
            (d : Descriptor) × (descriptor_from parse_encoded l ≡ some d)
            × (layer_descriptor_from decode_to_slice d ≡ ok l)
      go m (sha256 bytes) n k = (
        record {
          media_type = oci_media_type m;
          digest = record { algorithm = DigestAlgorithm.sha256; digest = hex.encode bytes };
          size = n;
          artifact_type = none;
        },
        rw (hex.parsed bytes k) refl,
        rw (media_type-oci m, hex.decoded bytes k) refl,
      )

module _ (decode_to_slice : ℕ → Bytes → Option Bytes) where
  -- The descriptors are turned into these layers, one by one.
  abbrev pub Each : List Descriptor → List LayerDescriptor → Type 0
  Each [] [] = Unit
  Each [] (l ∷ ls) = ⊥
  Each (d ∷ ds) [] = ⊥
  Each (d ∷ ds) (l ∷ ls) = (layer_descriptor_from decode_to_slice d ≡ ok l) × Each ds ls

  layers_from-Each :
      (ds : List Descriptor) (ls : List LayerDescriptor)
      → Each ds ls
      → layers_from decode_to_slice ds ≡ ok ls
  unfolding layers_from
  layers_from-Each [] [] h = refl
  layers_from-Each [] (l ∷ ls) h = absurd h
  layers_from-Each (d ∷ ds) [] h = absurd h
  layers_from-Each (d ∷ ds) (l ∷ ls) (h, hs) = rw (h, layers_from-Each ds ls hs) refl

  layers_from-err :
      (ds rest : List Descriptor) (ls : List LayerDescriptor) (d : Descriptor) (e : Error)
      → Each ds ls
      → layer_descriptor_from decode_to_slice d ≡ err e
      → layers_from decode_to_slice (ds ++ d ∷ rest) ≡ err e
  unfolding layers_from
  layers_from-err [] rest [] d e h k = rw k refl
  layers_from-err [] rest (l ∷ ls) d e h k = absurd h
  layers_from-err (d1 ∷ ds) rest [] d e h k = absurd h
  layers_from-err (d1 ∷ ds) rest (l ∷ ls) d e (h, hs) k =
      rw (h, layers_from-err ds rest ls d e hs k) refl

  -- A manifest: if all descriptors are turned into layers, it is the list of those, in order; if one
  -- is not, the manifest is refused with the error of the first such descriptor, whatever follows.
  pub image_manifest_from-Each :
      (ds rest : List Descriptor) (ls : List LayerDescriptor) (d : Descriptor) (e : Error)
      → Each ds ls
      → (image_manifest_from decode_to_slice ds ≡ ok (record { layers = ls }))
        × ((layer_descriptor_from decode_to_slice d ≡ err e)
            → image_manifest_from decode_to_slice (ds ++ d ∷ rest) ≡ err e)
  unfolding image_manifest_from
  image_manifest_from-Each ds rest ls d e h =
      (rw (layers_from-Each ds ls h) refl, λ k. rw (layers_from-err ds rest ls d e h k) refl)
