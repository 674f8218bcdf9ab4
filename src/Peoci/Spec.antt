-- ===== src/Peoci/Spec.antt =====
-- The reduced types of peoci/src/spec.rs and their conversions from and to those of the crate
-- oci_spec, whose values stand by the constructors and accessors that the code uses, and by their
-- texts where it uses no more. The crate hex is a parameter.
pub mod Oci
pub mod Digests
pub mod RoundTrip
use program_explorer.Prelude.{
  ℕ, Bool, true, false, Option, none, some, List, [], ◌∷◌, ◌++◌, ◌==◌, if◌then◌else◌,
}
use program_explorer.Prelude.Bytes.{Bytes, bytes_eq, codes}
use program_explorer.Prelude.Result.{Result, ok, err, ◌>>=◌, ok_or}
use program_explorer.Peoci.Spec.Oci
use program_explorer.Peoci.Spec.Oci.{
  OciOs, OciArch, OciMediaType, OciDigest, DigestAlgorithm, Descriptor, OciConfig,
  OciImageConfiguration,
}

pub data Error : Type 0 where
  unhandled_media_type unhandled_digest unhandled_os unhandled_arch : Bytes → Error
  bad_digest : Error

pub data Os : Type 0 where
  linux : Os

pub data Arch : Type 0 where
  amd64 arm64 : Arch

pub data MediaType : Type 0 where
  image_layer image_layer_gzip image_layer_zstd docker_image_layer_gzip : MediaType

pub data Digest : Type 0 where
  sha256 : Bytes → Digest

pub record LayerDescriptor : Type 0 where
  pub media_type : MediaType
  pub digest : Digest
  pub size : ℕ

pub record ImageManifest : Type 0 where
  pub layers : List LayerDescriptor

pub record Config : Type 0 where
  pub user : Option Bytes
  pub exposed_ports : Option (List Bytes)
  pub env : Option (List Bytes)
  pub entrypoint : Option (List Bytes)
  pub cmd : Option (List Bytes)
  pub working_dir : Option Bytes
  pub stop_signal : Option Bytes

pub record ImageConfiguration : Type 0 where
  pub architecture : Arch
  pub os : Os
  pub config : Option Config

abbrev pub docker_gzip : Bytes
docker_gzip = codes "application/vnd.docker.image.rootfs.diff.tar.gzip"

unfoldable pub os_from : OciOs → Result Error Os
os_from OciOs.linux = ok linux
os_from (OciOs.other text) = err (unhandled_os text)

unfoldable pub arch_from : OciArch → Result Error Arch
arch_from OciArch.amd64 = ok amd64
arch_from OciArch.arm64 = ok arm64
arch_from (OciArch.other text) = err (unhandled_arch text)

unfoldable pub media_type_from : OciMediaType → Result Error MediaType
media_type_from OciMediaType.image_layer = ok image_layer
media_type_from OciMediaType.image_layer_gzip = ok image_layer_gzip
media_type_from OciMediaType.image_layer_zstd = ok image_layer_zstd
media_type_from (OciMediaType.other text) =
    if bytes_eq text docker_gzip
    then ok docker_image_layer_gzip
    else err (unhandled_media_type text)
media_type_from (OciMediaType.another text) = err (unhandled_media_type text)

unfoldable pub oci_media_type : MediaType → OciMediaType
oci_media_type image_layer = OciMediaType.image_layer
oci_media_type image_layer_gzip = OciMediaType.image_layer_gzip
oci_media_type image_layer_zstd = OciMediaType.image_layer_zstd
oci_media_type docker_image_layer_gzip = OciMediaType.other docker_gzip

unfoldable pub config_from : OciConfig → Config
config_from ic = record {
  user = ic.user;
  exposed_ports = ic.exposed_ports;
  env = ic.env;
  entrypoint = ic.entrypoint;
  cmd = ic.cmd;
  working_dir = ic.working_dir;
  stop_signal = ic.stop_signal;
}

abbrev pub map_config : Option OciConfig → Option Config
map_config none = none
map_config (some ic) = some (config_from ic)

unfoldable pub image_configuration_from : OciImageConfiguration → Result Error ImageConfiguration
image_configuration_from ic = do
  architecture ← arch_from ic.architecture
  os ← os_from ic.os
  ok (record { architecture = architecture; os = os; config = map_config ic.config })

-- `s.split_once(':')`
abbrev pub before_colon : ℕ → Option (Bytes × Bytes) → Option (Bytes × Bytes)
before_colon b none = none
before_colon b (some (x, y)) = some (b ∷ x, y)

unfoldable pub split_once : Bytes → Option (Bytes × Bytes)
split_once [] = none
split_once (b ∷ s) =
    let rest = split_once s in if b == 0x3a then some ([], s) else before_colon b rest

-- `hex::decode_to_slice` into so many bytes.
module _ (decode_to_slice : ℕ → Bytes → Option Bytes) where
  unfoldable pub hex_decode : ℕ → Bytes → Result Error Bytes
  hex_decode n s = ok_or (decode_to_slice n s) bad_digest

  unfoldable pub digest_from : OciDigest → Result Error Digest
  unfolding hex_decode
  digest_from d = elim d.algorithm [
    | DigestAlgorithm.sha256 ↦ hex_decode 32 d.digest >>= λ bytes. ok (sha256 bytes)
    | DigestAlgorithm.other text ↦ err (unhandled_digest text)
  ]

  digest_of_parts : Option (Bytes × Bytes) → Result Error Digest
  unfolding hex_decode
  digest_of_parts none = err bad_digest
  digest_of_parts (some (algorithm, hex)) =
      if bytes_eq algorithm (codes "sha256")
      then (hex_decode 32 hex >>= λ bytes. ok (sha256 bytes))
      else err (unhandled_digest algorithm)

  unfoldable pub digest_from_str : Bytes → Result Error Digest
  unfolding digest_of_parts split_once
  digest_from_str s = digest_of_parts (split_once s)

  unfoldable pub layer_descriptor_from : Descriptor → Result Error LayerDescriptor
  layer_descriptor_from d = do
    media_type ← media_type_from d.media_type
    digest ← digest_from d.digest
    ok (record { media_type = media_type; digest = digest; size = d.size })

  -- `.map(TryInto::try_into).collect::<Result<Vec<_>, _>>()`
  unfoldable pub layers_from : List Descriptor → Result Error (List LayerDescriptor)
  layers_from [] = ok []
  layers_from (d ∷ ds) = do
    layer ← layer_descriptor_from d
    layers ← layers_from ds
    ok (layer ∷ layers)

  unfoldable pub image_manifest_from : List Descriptor → Result Error ImageManifest
  image_manifest_from ds = layers_from ds >>= λ layers. ok (record { layers = layers })

-- `Descriptor::new` leaves the artifact type open.
abbrev pub descriptor_with : LayerDescriptor → Option OciDigest → Option Descriptor
descriptor_with l none = none
descriptor_with l (some d) = some (record {
  media_type = oci_media_type l.media_type;
  digest = d;
  size = l.size;
  artifact_type = none;
})

-- The conversions back, with `hex::encode(..).parse()` as a digest; `none` is the panic of `unwrap`.
module _ (parse_encoded : Bytes → Option OciDigest) where
  unfoldable pub oci_digest : Digest → Option OciDigest
  oci_digest (sha256 bytes) = parse_encoded bytes

  unfoldable pub descriptor_from : LayerDescriptor → Option Descriptor
  descriptor_from l = descriptor_with l (oci_digest l.digest)
