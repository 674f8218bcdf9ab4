-- ===== src/PathBuf.antt =====
-- `std::path::PathBuf` as the program uses it: a byte string with the operations that the
-- standard library defines on Unix by `Components`.
pub mod Plain
pub mod Components
use program_explorer.Prelude.{
  ℕ, Bool, true, false, Option, none, some, List, [], ◌∷◌, ◌++◌, ◌||◌, ◌&&◌, not, ◌==◌,
  if◌then◌else◌, take, drop,
}
use program_explorer.Prelude.Bytes.{Bytes, bytes_eq}
use mathlib.Core.List.{reverse}

abbrev pub slash : ℕ
slash = 0x2f

abbrev pub dot : ℕ
dot = 0x2e

unfoldable pub is_absolute : Bytes → Bool
is_absolute [] = false
is_absolute (b ∷ p) = b == slash

-- Whether `push` writes a separator: the path is not empty and does not end with one.
unfoldable pub need_sep : Bytes → Bool
need_sep [] = false
need_sep (b ∷ []) = not (b == slash)
need_sep (b ∷ c ∷ p) = need_sep (c ∷ p)

-- `PathBuf::push`: an absolute name replaces the path.
unfoldable pub push : Bytes → Bytes → Bytes
unfolding is_absolute need_sep
push p name = if is_absolute name then name else if need_sep p then p ++ slash ∷ name else p ++ name

-- The parts between slashes, at least one.
prepend : ℕ → List Bytes → List Bytes
prepend b [] = (b ∷ []) ∷ []
prepend b (s ∷ ss) = (b ∷ s) ∷ ss

unfoldable pub split_slash : Bytes → List Bytes
unfolding prepend
split_slash [] = [] ∷ []
split_slash (b ∷ p) = let rest = split_slash p in if b == slash then [] ∷ rest else prepend b rest

unfoldable pub join_slash : List Bytes → Bytes
join_slash [] = []
join_slash (s ∷ []) = s
join_slash (s ∷ t ∷ ss) = s ++ slash ∷ join_slash (t ∷ ss)

-- An empty part and `.` are no components.
unfoldable pub is_blank : Bytes → Bool
is_blank [] = true
is_blank (b ∷ []) = b == dot
is_blank (b ∷ c ∷ s) = false

-- `Components::trim_right`, on the parts from the last to the first.
unfoldable pub trim : List Bytes → List Bytes
unfolding is_blank
trim [] = []
trim (s ∷ ss) = let rest = trim ss in if is_blank s then rest else s ∷ ss

-- `Components::include_cur_dir`: the path is `.` or begins with `./`.
unfoldable pub starts_with_cur_dir : Bytes → Bool
starts_with_cur_dir [] = false
starts_with_cur_dir (b ∷ []) = b == dot
starts_with_cur_dir (b ∷ c ∷ p) = (b == dot) && (c == slash)

-- `Components::len_before_body`
len_before_body : Bytes → ℕ
unfolding is_absolute starts_with_cur_dir
len_before_body p = if is_absolute p || starts_with_cur_dir p then 1 else 0

unfoldable parent_of_parts : Bytes → List Bytes → Option Bytes
unfolding is_absolute starts_with_cur_dir trim join_slash
parent_of_parts p [] =
    if is_absolute p then none else if starts_with_cur_dir p then some [] else none
parent_of_parts p (s ∷ ss) = some (take (len_before_body p) p ++ join_slash (reverse (trim ss)))

-- `Path::parent`
unfoldable pub parent : Bytes → Option Bytes
unfolding parent_of_parts len_before_body split_slash trim
parent p = parent_of_parts p (trim (reverse (split_slash (drop (len_before_body p) p))))

-- `PathBuf::pop`: nothing happens where there is no parent.
pop_to : Bytes → Option Bytes → Bytes
pop_to p none = p
pop_to p (some q) = q

unfoldable pub pop : Bytes → Bytes
unfolding pop_to
pop p = pop_to p (parent p)

-- `Path::file_name`: the last component, unless it is `..` or there is none.
unfoldable file_name_of : List Bytes → Option Bytes
unfolding bytes_eq
file_name_of [] = none
file_name_of (s ∷ ss) = if bytes_eq s (dot ∷ dot ∷ []) then none else some s

unfoldable pub file_name : Bytes → Option Bytes
unfolding file_name_of len_before_body split_slash trim
file_name p = file_name_of (trim (reverse (split_slash (drop (len_before_body p) p))))

-- `Path::with_file_name`
replace_name : Bytes → Bytes → Option Bytes → Bytes
replace_name p name none = push p name
replace_name p name (some old) = push (pop p) name

unfoldable pub with_file_name : Bytes → Bytes → Bytes
unfolding replace_name
with_file_name p name = replace_name p name (file_name p)
