-- ===== src/Pearchive/Forest.antt =====
-- What an archive means: a forest of files and directories, written down without the packer's or
-- the unpacker's state.
pub mod Pack
pub mod Unpack
pub mod RoundTrip
use program_explorer.Prelude.{
  ℕ, zero, suc, ◌+◌, ◌^◌, ◌≤◌, ◌<◌, ◌≢◌, Bool, true, false, List, [], ◌∷◌, ◌++◌, length, All,
  if◌then◌else◌,
}
use program_explorer.Prelude.Bytes.{Bytes, to_le_bytes}
use program_explorer.PathBuf.{join_slash}
use program_explorer.PathBuf.Plain.{IsPlain}
use program_explorer.Pearchive.Pack.{Op, add_file, add_dir, leave}
use Prim.Native.Nat.{max}

pub data Forest : Type 0 where
  empty : Forest
  file : Bytes → Bytes → Forest → Forest
  dir : Bytes → Forest → Forest → Forest

-- The packer's calls.
unfoldable pub calls : Forest → List Op
calls empty = []
calls (file name contents rest) = add_file name contents ∷ calls rest
calls (dir name inner rest) = add_dir name ∷ (calls inner ++ leave ∷ calls rest)

-- The bytes of the v1 format.
unfoldable pub encode : Forest → Bytes
encode empty = []
encode (file name contents rest) =
    1 ∷ (name ++ 0 ∷ (to_le_bytes 4 (length contents) ++ (contents ++ encode rest)))
encode (dir name inner rest) = 2 ∷ (name ++ 0 ∷ (encode inner ++ 3 ∷ encode rest))

-- The files with their paths, in the order of the archive. `ds` are the directories above.
unfoldable pub listing : List Bytes → Forest → List (Bytes × Bytes)
listing ds empty = []
listing ds (file name contents rest) = (join_slash (ds ++ name ∷ []), contents) ∷ listing ds rest
listing ds (dir name inner rest) = listing (ds ++ name ∷ []) inner ++ listing ds rest

unfoldable pub height : Forest → ℕ
height empty = 0
height (file name contents rest) = height rest
height (dir name inner rest) = max (suc (height inner)) (height rest)

-- A name that the format can carry and a path can hold.
pub record IsName (name : Bytes) : Type 0 where
  pub plain : IsPlain name
  pub no_nul : All (λ b. b ≢ 0) name
  pub short : length name ≤ 255

-- No file is of 4 GiB or more.
abbrev pub IsSized : Forest → Type 0
IsSized empty = Unit
IsSized (file name contents rest) = (length contents < 2 ^ 32) × IsSized rest
IsSized (dir name inner rest) = IsSized inner × IsSized rest

-- Every name is one.
abbrev pub IsNamed : Forest → Type 0
IsNamed empty = Unit
IsNamed (file name contents rest) = IsName name × IsNamed rest
IsNamed (dir name inner rest) = IsName name × IsNamed inner × IsNamed rest
