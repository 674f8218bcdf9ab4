-- ===== src/Squash/Layer/Whiteouts.antt =====
-- Which entries are marks of deleted paths.
use program_explorer.Prelude.{◌≡◌, ◌≢◌, refl, false, Option, none, some, List, [], ◌∷◌, ◌++◌, All}
use program_explorer.Prelude.Bytes.{Bytes, bytes_eq}
use program_explorer.Prelude.Result.{ok, Succeeds}
use program_explorer.PathBuf.{dot, file_name, parent, join_slash}
use program_explorer.PathBuf.Plain.{
  IsPlain, file_name-join, with_file_name-join, parent-join, file_name-parent,
}
use program_explorer.Squash.Mark.{Whiteout}
use program_explorer.Squash.Deletions.{strip_prefix}
use program_explorer.Squash.Layer.{
  whiteout, whiteout_of_name, whiteout_of_prefixes, opaque_parent, hidden_name, opaque_prefix,
  whiteout_prefix,
}

opaque_parent-ok : (o : Option Bytes) → o ≢ none → Succeeds (λ w. Unit {0}) (opaque_parent o)
unfolding opaque_parent
opaque_parent-ok none h = absurd (h refl)
opaque_parent-ok (some dir) h = tt

hidden_name-ok : (path : Bytes) (o : Option Bytes) → Succeeds (λ w. Unit {0}) (hidden_name path o)
unfolding hidden_name
hidden_name-ok path none = tt
hidden_name-ok path (some trimmed) = tt

whiteout_of_prefixes-ok :
    (path : Bytes) (a b : Option Bytes)
    → parent path ≢ none
    → Succeeds (λ w. Unit {0}) (whiteout_of_prefixes path a b)
unfolding whiteout_of_prefixes
whiteout_of_prefixes-ok path (some suffix) b h = opaque_parent-ok (parent path) h
whiteout_of_prefixes-ok path none b h = hidden_name-ok path b

whiteout_of_name-ok :
    (path : Bytes) (o : Option Bytes)
    → file_name path ≡ o
    → Succeeds (λ w. Unit {0}) (whiteout_of_name path o)
unfolding whiteout_of_name
whiteout_of_name-ok path none e = tt
whiteout_of_name-ok path (some name) e =
    whiteout_of_prefixes-ok path _ _ (file_name-parent path name e)

-- Recognising a mark never fails: a path that has a file name has a parent.
pub whiteout-ok : (path : Bytes) → Succeeds (λ w. Unit {0}) (whiteout path)
unfolding whiteout
whiteout-ok path = whiteout_of_name-ok path (file_name path) refl

-- The mark that an entry is, for a path of plain names whose last one is not `..`: a name that
-- begins with `.wh..wh..opq` makes the parent opaque, whatever follows; another name that begins
-- with `.wh.` hides the path with the rest of the name in its place, if that is a plain name; and a
-- name with neither prefix is no mark.
pub whiteout-join :
    (ds : List Bytes) (n : Bytes)
    → All IsPlain ds
    → IsPlain n
    → bytes_eq n (dot ∷ dot ∷ []) ≡ false
    → ((suffix : Bytes)
        → strip_prefix n opaque_prefix ≡ some suffix
        → whiteout (join_slash (ds ++ n ∷ [])) ≡ ok (some (Whiteout.opaque (join_slash ds))))
      × ((m : Bytes)
          → strip_prefix n opaque_prefix ≡ none
          → strip_prefix n whiteout_prefix ≡ some m
          → IsPlain m
          → whiteout (join_slash (ds ++ n ∷ []))
            ≡ ok (some (Whiteout.whiteout (join_slash (ds ++ m ∷ [])))))
      × (strip_prefix n opaque_prefix ≡ none
          → strip_prefix n whiteout_prefix ≡ none
          → whiteout (join_slash (ds ++ n ∷ [])) ≡ ok none)
unfolding whiteout whiteout_of_name whiteout_of_prefixes opaque_parent hidden_name
whiteout-join ds n hds h e = (
  λ suffix p. rw (file_name-join ds n hds h e, p, parent-join ds n hds h) refl,
  λ m p q k. rw (file_name-join ds n hds h e, p, q, with_file_name-join ds n m hds h k e) refl,
  λ p q. rw (file_name-join ds n hds h e, p, q) refl,
)
