-- ===== src/PathBuf/Components.antt =====
-- `Path::components` on Unix.
use program_explorer.Prelude.{List, [], ◌∷◌, if◌then◌else◌}
use program_explorer.Prelude.Bytes.{Bytes, bytes_eq}
use program_explorer.PathBuf.{dot, is_absolute, split_slash, is_blank, starts_with_cur_dir}

pub data Component : Type 0 where
  prefix root_dir cur_dir parent_dir : Component
  normal : Bytes → Component

-- The parts between slashes, of which empty ones and `.` are left out.
unfoldable pub parts : List Bytes → List Component
parts [] = []
parts (s ∷ ss) =
    let rest = parts ss in
    if is_blank s
    then rest
    else if bytes_eq s (dot ∷ dot ∷ [])
    then parent_dir ∷ rest
    else normal s ∷ rest

-- A slash in front is the root, and a `.` in front is kept.
unfoldable pub components : Bytes → List Component
unfolding parts
components p =
    if is_absolute p
    then root_dir ∷ parts (split_slash p)
    else if starts_with_cur_dir p
    then cur_dir ∷ parts (split_slash p)
    else parts (split_slash p)
