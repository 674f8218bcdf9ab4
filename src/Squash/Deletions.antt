-- ===== src/Squash/Deletions.antt =====
-- `DeletionsOsString` of peimage/src/squash.rs: what the layers that were already read hide of those
-- that are still to be read.
pub mod Keys
pub mod Layer
pub mod Reasons
pub mod Seen
use program_explorer.Prelude.{
  ℕ, Bool, true, false, Option, none, some, List, [], ◌∷◌, ◌++◌, ◌&&◌, ◌==◌, not, if◌then◌else◌,
}
use program_explorer.Prelude.Bytes.{Bytes, bytes_eq}
use program_explorer.PathBuf.{slash}
use program_explorer.Squash.Order.{bytes_lt}

pub data DeletionState : Type 0 where
  whiteout opaque shadowed : DeletionState

pub data DeletionReason : Type 0 where
  whiteout whiteout_dir opaque shadowed : DeletionReason

-- `BTreeMap<OsString, DeletionState>`, in the order of the keys.
abbrev pub DeletionMap : Type 0
DeletionMap = List (Bytes × DeletionState)

pub record Deletions : Type 0 where
  pub map : DeletionMap
  pub whiteout_q : List Bytes
  pub opaque_q : List Bytes

-- `Deletions::default()`
abbrev pub default : Deletions
default = record { map = []; whiteout_q = []; opaque_q = [] }

-- The last byte, if it is a slash, is left out.
unfoldable pub without_trailing_slash : Bytes → Bytes
without_trailing_slash [] = []
without_trailing_slash (b ∷ []) = if b == slash then [] else b ∷ []
without_trailing_slash (b ∷ c ∷ x) = b ∷ without_trailing_slash (c ∷ x)

-- `x.strip_prefix(prefix)`
unfoldable pub strip_prefix : Bytes → Bytes → Option Bytes
strip_prefix x [] = some x
strip_prefix [] (p ∷ prefix) = none
strip_prefix (b ∷ x) (p ∷ prefix) =
    let rest = strip_prefix x prefix in if b == p then rest else none

begins_with_slash : Option Bytes → Bool
begins_with_slash none = false
begins_with_slash (some []) = false
begins_with_slash (some (b ∷ rest)) = b == slash

unfoldable pub os_str_starts_with : Bytes → Bytes → Bool
unfolding strip_prefix begins_with_slash
os_str_starts_with x prefix = begins_with_slash (strip_prefix x prefix)

-- The table in `insert`: the old state and the new one.
unfoldable pub merge : DeletionState → DeletionState → DeletionState
merge whiteout new = whiteout
merge opaque whiteout = whiteout
merge opaque opaque = opaque
merge opaque shadowed = whiteout
merge shadowed whiteout = whiteout
merge shadowed opaque = whiteout
merge shadowed shadowed = shadowed

-- `self.map.entry(path).and_modify(..).or_insert(reason)`
unfoldable pub insert_map : Bytes → DeletionState → DeletionMap → DeletionMap
insert_map path reason [] = (path, reason) ∷ []
insert_map path reason ((key, state) ∷ m) =
    let rest = insert_map path reason m in
    if bytes_lt path key
    then (path, reason) ∷ (key, state) ∷ m
    else if bytes_eq key path
    then (key, merge state reason) ∷ m
    else (key, state) ∷ rest

unfoldable pub insert : Bytes → DeletionState → Deletions → Deletions
unfolding insert_map merge
insert path reason d = record d { map = insert_map path reason d.map }

unfoldable pub push_whiteout : Bytes → Deletions → Deletions
push_whiteout p d = record d { whiteout_q = d.whiteout_q ++ without_trailing_slash p ∷ [] }

unfoldable pub push_opaque : Bytes → Deletions → Deletions
push_opaque p d = record d { opaque_q = d.opaque_q ++ without_trailing_slash p ∷ [] }

unfoldable pub insert_seen : Bytes → Deletions → Deletions
unfolding insert
insert_seen p d = insert p shadowed d

-- `self.map.range((Unbounded, Included(p))).next_back()`: the last key that is not behind `p`.
unfoldable pub floor : Bytes → DeletionMap → Option (Bytes × DeletionState)
floor p [] = none
floor p ((key, state) ∷ m) =
    let rest = floor p m in
    if bytes_lt p key then none else elim rest [ none ↦ some (key, state) | some e ↦ some e ]

-- The match on the entry that was found.
unfoldable pub reason_of : Bytes → Option (Bytes × DeletionState) → Option DeletionReason
unfolding os_str_starts_with
reason_of p none = none
reason_of p (some (key, shadowed)) = if bytes_eq key p then some shadowed else none
reason_of p (some (key, whiteout)) =
    if bytes_eq key p
    then some whiteout
    else if os_str_starts_with p key
    then some whiteout_dir
    else none
reason_of p (some (key, opaque)) =
    if not (bytes_eq key p) && os_str_starts_with p key then some opaque else none

unfoldable pub is_deleted : Bytes → Deletions → Option DeletionReason
unfolding reason_of without_trailing_slash floor
is_deleted p d = let q = without_trailing_slash p in reason_of q (floor q d.map)

insert_all : List Bytes → DeletionState → Deletions → Deletions
insert_all [] reason d = d
insert_all (x ∷ xs) reason d = insert_all xs reason (insert x reason d)

unfoldable pub end_of_layer : Deletions → Deletions
unfolding insert_all insert
end_of_layer d =
    let d1 = insert_all d.whiteout_q whiteout (record d { whiteout_q = [] }) in
    insert_all d1.opaque_q opaque (record d1 { opaque_q = [] })
