-- ===== src/Peinit/Types.antt =====
-- The types of peinit/src/lib.rs that the two sides exchange.
use program_explorer.Prelude.{ℕ, Bool, Option, none, some, if◌then◌else◌}
use program_explorer.Prelude.Bytes.{Bytes, codes, bytes_eq}

pub data RootfsKind : Type 0 where
  sqfs erofs : RootfsKind

pub data ResponseFormat : Type 0 where
  pe_archive_v1 json_v1 : ResponseFormat

-- `std::time::Duration`
pub record Duration : Type 0 where
  pub secs : ℕ
  pub nanos : ℕ

pub record Config : Type 0 where
  pub oci_runtime_config : Bytes
  pub timeout : Duration
  pub stdin : Option Bytes
  pub strace : Bool
  pub crun_debug : Bool
  pub rootfs_dir : Option Bytes
  pub rootfs_kind : RootfsKind
  pub response_format : ResponseFormat
  pub kernel_inspect : Bool
  pub manifest_digest : Bytes

-- A signed integer.
pub data ℤ : Type 0 where
  pos negsuc : ℕ → ℤ

-- The code of `siginfo_t`, by the constants of libc.
pub data Code : Type 0 where
  cld_exited cld_killed cld_dumped cld_trapped cld_stopped cld_continued : Code
  other : ℤ → Code

abbrev pub code_value : Code → ℤ
code_value cld_exited = pos 1
code_value cld_killed = pos 2
code_value cld_dumped = pos 3
code_value cld_trapped = pos 4
code_value cld_stopped = pos 5
code_value cld_continued = pos 6
code_value (other c) = c

pub data SigInfoRedux : Type 0 where
  exited killed dumped stopped trapped continued : ℤ → SigInfoRedux
  unk : ℤ → ℤ → SigInfoRedux

-- `SigInfoRedux::from`, on the status and the code.
unfoldable pub sig_info_from : ℤ → Code → SigInfoRedux
sig_info_from status cld_exited = exited status
sig_info_from status cld_killed = killed status
sig_info_from status cld_dumped = dumped status
sig_info_from status cld_trapped = trapped status
sig_info_from status cld_stopped = unk status (code_value cld_stopped)
sig_info_from status cld_continued = continued status
sig_info_from status (other c) = unk status c

pub record TimeVal : Type 0 where
  pub sec : ℤ
  pub usec : ℤ

pub record Rusage : Type 0 where
  pub ru_utime : TimeVal
  pub ru_stime : TimeVal
  pub ru_maxrss : ℤ
  pub ru_ixrss : ℤ
  pub ru_idrss : ℤ
  pub ru_isrss : ℤ
  pub ru_minflt : ℤ
  pub ru_majflt : ℤ
  pub ru_nswap : ℤ
  pub ru_inblock : ℤ
  pub ru_oublock : ℤ
  pub ru_msgsnd : ℤ
  pub ru_msgrcv : ℤ
  pub ru_nsignals : ℤ
  pub ru_nvcsw : ℤ
  pub ru_nivcsw : ℤ

-- What is the same in `Ok` and `Overtime`.
pub record Exit : Type 0 where
  pub siginfo : SigInfoRedux
  pub rusage : Rusage
  pub stdout : Option Bytes
  pub stderr : Option Bytes
  pub manifest_digest : Bytes

pub data Response : Type 0 where
  ok overtime : Exit → Response
  panic : Bytes → Response

-- The match on the extension of a path, which `Path::extension` gives.
unfoldable pub kind_of_extension : Option Bytes → Option RootfsKind
kind_of_extension none = none
kind_of_extension (some e) =
    if bytes_eq e (codes "sqfs")
    then some sqfs
    else if bytes_eq e (codes "erofs")
    then some erofs
    else none
