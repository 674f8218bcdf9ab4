-- ===== src/Peoci/Compression.antt =====
-- The compression of a layer (peoci/src/compression.rs).
use program_explorer.Prelude.{Option, none, some, ◌≡◌, refl, if◌then◌else◌}
use mathlib.Core.Path.{subst}
use program_explorer.Prelude.Bytes.{Bytes, bytes_eq}
use program_explorer.Prelude.Result.{Result, ok, err}
use program_explorer.Squash.Layer.{Compression, uncompressed, gzip, zstd}
use program_explorer.Peoci.Spec.Oci.{OciMediaType, Descriptor, OciDigest}
use program_explorer.Peoci.Spec.{
  LayerDescriptor, MediaType, docker_gzip, oci_media_type, descriptor_from, descriptor_with,
  oci_digest,
}

pub record Error : Type 0 where
  pub media_type : OciMediaType
  pub artifact_type : Option OciMediaType

-- `Compression::try_from(&Descriptor)`, on the media type and the artifact type.
unfoldable pub compression_of : OciMediaType → Option OciMediaType → Result Error Compression
compression_of OciMediaType.image_layer artifact = ok uncompressed
compression_of OciMediaType.image_layer_gzip artifact = ok gzip
compression_of OciMediaType.image_layer_zstd artifact = ok zstd
compression_of (OciMediaType.other text) artifact =
    if bytes_eq text docker_gzip
    then ok gzip
    else err (record { media_type = OciMediaType.other text; artifact_type = artifact })
compression_of (OciMediaType.another text) artifact =
    err (record { media_type = OciMediaType.another text; artifact_type = artifact })

unfoldable pub try_from : Descriptor → Result Error Compression
unfolding compression_of
try_from d = compression_of d.media_type d.artifact_type

-- `Compression::from(&LayerDescriptor)`
unfoldable pub from_layer : LayerDescriptor → Compression
from_layer l = elim l.media_type [
  | MediaType.image_layer ↦ uncompressed
  | MediaType.image_layer_gzip ↦ gzip
  | MediaType.docker_image_layer_gzip ↦ gzip
  | MediaType.image_layer_zstd ↦ zstd
]

compression-media_type :
    (l : LayerDescriptor) (m : MediaType)
    → l.media_type ≡ m
    → compression_of (oci_media_type m) none ≡ ok (from_layer l)
unfolding compression_of oci_media_type from_layer bytes_eq
compression-media_type l MediaType.image_layer e = rw e refl
compression-media_type l MediaType.image_layer_gzip e = rw e refl
compression-media_type l MediaType.image_layer_zstd e = rw e refl
compression-media_type l MediaType.docker_image_layer_gzip e = rw e refl

-- A layer that is turned into a descriptor of oci_spec has the same compression by both ways of
-- finding it.
pub try_from-descriptor_from :
    (parse_encoded : Bytes → Option OciDigest) (l : LayerDescriptor) (d : Descriptor)
    → descriptor_from parse_encoded l ≡ some d
    → try_from d ≡ ok (from_layer l)
unfolding descriptor_from try_from
try_from-descriptor_from parse_encoded l d h = go (oci_digest parse_encoded l.digest) h
  where
    go :
        (o : Option OciDigest)
        → descriptor_with l o ≡ some d
        → compression_of d.media_type d.artifact_type ≡ ok (from_layer l)
    go none e = absurd (cc)
    go (some x) e =
        subst
          (λ (m : Option Descriptor). elim m [
            | none ↦ Unit {0}
            | some y ↦ compression_of y.media_type y.artifact_type ≡ ok (from_layer l)
          ])
          e (compression-media_type l l.media_type refl)
