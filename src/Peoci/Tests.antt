-- ===== src/Peoci/Tests.antt =====
-- The theorems on image descriptions at concrete descriptors.
use program_explorer.Prelude.{ℕ, ◌≡◌, refl, Option, none, some}
use program_explorer.Prelude.Bytes.{Bytes, codes, bytes_eq}
use program_explorer.Prelude.Result.{ok}
use program_explorer.Peoci.Spec.Oci.{OciDigest, OciMediaType, DigestAlgorithm, Descriptor}
use program_explorer.Peoci.Spec.{
  sha256, LayerDescriptor, docker_image_layer_gzip, descriptor_from, layer_descriptor_from,
  oci_digest, digest_from, hex_decode, media_type_from, oci_media_type, docker_gzip,
}
use program_explorer.Peoci.Spec.RoundTrip.{IsHex, layer_descriptor-descriptor}

-- An encoding that leaves the bytes as they are.
abbrev decode_to_slice : ℕ → Bytes → Option Bytes
decode_to_slice n s = some s

abbrev parse_encoded : Bytes → Option OciDigest
parse_encoded bytes = some (record { algorithm = DigestAlgorithm.sha256; digest = bytes })

plain-IsHex : IsHex decode_to_slice parse_encoded
plain-IsHex = record { encode = λ b. b; parsed = λ b h. refl; decoded = λ b h. refl }

abbrev bytes : Bytes
bytes = codes "0123456789abcdef0123456789abcdef"

abbrev layer : LayerDescriptor
layer = record { media_type = docker_image_layer_gzip; digest = sha256 bytes; size = 10 }

abbrev descriptor : Descriptor
descriptor = record {
  media_type = OciMediaType.other docker_gzip;
  digest = record { algorithm = DigestAlgorithm.sha256; digest = bytes };
  size = 10;
  artifact_type = none;
}

layer_descriptor-descriptor_example :
    (d : Descriptor) × (descriptor_from parse_encoded layer ≡ some d)
    × (layer_descriptor_from decode_to_slice d ≡ ok layer)
layer_descriptor-descriptor_example =
    layer_descriptor-descriptor decode_to_slice parse_encoded plain-IsHex layer refl

layer_described : descriptor_from parse_encoded layer ≡ some descriptor
unfolding descriptor_from oci_digest oci_media_type
layer_described = refl

abbrev unknown : Descriptor
unknown = record descriptor { media_type = OciMediaType.another (codes "x") }

descriptor_read : layer_descriptor_from decode_to_slice descriptor ≡ ok layer
unfolding layer_descriptor_from media_type_from digest_from hex_decode bytes_eq
descriptor_read = refl
