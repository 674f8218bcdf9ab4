-- ===== src/Peoci/Spec/Oci.antt =====
-- Values of the crate oci_spec, as far as peoci/src/spec.rs and compression.rs look at them.
use program_explorer.Prelude.{ℕ, Option, List}
use program_explorer.Prelude.Bytes.{Bytes}

-- Every other value stands by its text.
pub data OciOs : Type 0 where
  linux : OciOs
  other : Bytes → OciOs

pub data OciArch : Type 0 where
  amd64 arm64 : OciArch
  other : Bytes → OciArch

-- `Other` holds a text; any constructor that the code does not name is `another`.
pub data OciMediaType : Type 0 where
  image_layer image_layer_gzip image_layer_zstd : OciMediaType
  other another : Bytes → OciMediaType

pub data DigestAlgorithm : Type 0 where
  sha256 : DigestAlgorithm
  other : Bytes → DigestAlgorithm

pub record OciDigest : Type 0 where
  pub algorithm : DigestAlgorithm
  pub digest : Bytes

pub record Descriptor : Type 0 where
  pub media_type : OciMediaType
  pub digest : OciDigest
  pub size : ℕ
  pub artifact_type : Option OciMediaType

pub record OciConfig : Type 0 where
  pub user : Option Bytes
  pub exposed_ports : Option (List Bytes)
  pub env : Option (List Bytes)
  pub entrypoint : Option (List Bytes)
  pub cmd : Option (List Bytes)
  pub working_dir : Option Bytes
  pub stop_signal : Option Bytes

pub record OciImageConfiguration : Type 0 where
  pub architecture : OciArch
  pub os : OciOs
  pub config : Option OciConfig
