-- ===== src/PathBuf/Plain.antt =====
-- Paths of plain names: `pop` takes back what `push` added.
use program_explorer.Prelude.{
  ℕ, ◌≡◌, ◌≢◌, refl, sym, ap, ◌∙◌, arith, true, false, none, some, List, [], ◌∷◌, ◌++◌,
  append_assoc, All, All-append, All-reverse,
}
use program_explorer.Prelude.Bytes.{Bytes, bytes_eq}
use program_explorer.PathBuf.{
  slash, dot, is_absolute, need_sep, push, split_slash, join_slash, is_blank, trim,
  starts_with_cur_dir, parent, pop, file_name, with_file_name, file_name_of, parent_of_parts,
}
use mathlib.Core.List.{reverse, reverse-append, reverse-reverse}

-- A name that is one component of a path: not empty, not `.`, and without a slash.
pub record IsPlain (name : Bytes) : Type 0 where
  pub not_empty : name ≢ []
  pub not_dot : name ≢ dot ∷ []
  pub no_slash : All (λ b. b ≢ slash) name

join-snoc :
    (c : Bytes) (cs : List Bytes) (n : Bytes)
    → join_slash ((c ∷ cs) ++ n ∷ []) ≡ join_slash (c ∷ cs) ++ slash ∷ n
unfolding join_slash
join-snoc c [] n = refl
join-snoc c (d ∷ cs) n =
    ap (λ t. c ++ slash ∷ t) (join-snoc d cs n)
    ∙ sym (append_assoc c (slash ∷ join_slash (d ∷ cs)) (slash ∷ n))

need_sep-append : (a : Bytes) (b : ℕ) (s : Bytes) → need_sep (a ++ b ∷ s) ≡ need_sep (b ∷ s)
unfolding need_sep
need_sep-append [] b s = refl
need_sep-append (x ∷ []) b s = refl
need_sep-append (x ∷ y ∷ a) b s = need_sep-append (y ∷ a) b s

need_sep-plain : (s : Bytes) → s ≢ [] → All (λ b. b ≢ slash) s → need_sep s ≡ true
unfolding need_sep
need_sep-plain [] h a = absurd (h refl)
need_sep-plain (b ∷ []) h a = ground arith
need_sep-plain (b ∷ c ∷ s) h (_, a) = need_sep-plain (c ∷ s) (λ e. cc) a

pub need_sep-join :
    (c : Bytes) (cs : List Bytes) → All IsPlain (c ∷ cs) → need_sep (join_slash (c ∷ cs)) ≡ true
unfolding join_slash need_sep
need_sep-join c [] (h, _) = need_sep-plain c h.not_empty h.no_slash
need_sep-join c ([] ∷ cs) (h, (k, _)) = absurd (k.not_empty refl)
need_sep-join c ((x ∷ d) ∷ []) (h, hs) =
    need_sep-append c slash (x ∷ d) ∙ need_sep-join (x ∷ d) [] hs
need_sep-join c ((x ∷ d) ∷ e ∷ cs) (h, hs) =
    need_sep-append c slash _ ∙ need_sep-join (x ∷ d) (e ∷ cs) hs

pub is_absolute-join :
    (c : Bytes) (cs : List Bytes) → IsPlain c → is_absolute (join_slash (c ∷ cs)) ≡ false
unfolding is_absolute join_slash
is_absolute-join [] cs h = absurd (h.not_empty refl)
is_absolute-join (b ∷ c) [] h = ground arith
is_absolute-join (b ∷ c) (d ∷ cs) h = ground arith

pub starts_with_cur_dir-join :
    (c : Bytes) (cs : List Bytes) → IsPlain c → starts_with_cur_dir (join_slash (c ∷ cs)) ≡ false
unfolding starts_with_cur_dir join_slash
starts_with_cur_dir-join [] cs h = absurd (h.not_empty refl)
starts_with_cur_dir-join (b ∷ []) [] h = ground arith
starts_with_cur_dir-join (b ∷ []) (d ∷ cs) h = ground arith
starts_with_cur_dir-join (b ∷ x ∷ c) [] h = ground arith
starts_with_cur_dir-join (b ∷ x ∷ c) (d ∷ cs) h = ground arith

is_absolute-plain : (n : Bytes) → IsPlain n → is_absolute n ≡ false
unfolding join_slash
is_absolute-plain n h = is_absolute-join n [] h

-- On a path of plain names, `push` adds one more.
pub push-join :
    (cs : List Bytes) (n : Bytes)
    → All IsPlain cs
    → IsPlain n
    → push (join_slash cs) n ≡ join_slash (cs ++ n ∷ [])
unfolding push
push-join [] n hs h = rw (is_absolute-plain n h) (unfold need_sep join_slash in refl)
push-join (c ∷ cs) n hs h =
    rw (is_absolute-plain n h, need_sep-join c cs hs) (sym (join-snoc c cs n))

split_slash-append_slash :
    (s : Bytes) (t : Bytes)
    → All (λ b. b ≢ slash) s
    → split_slash (s ++ slash ∷ t) ≡ s ∷ split_slash t
unfolding split_slash
split_slash-append_slash [] t h = ground arith
split_slash-append_slash (b ∷ s) t h = ground (arith, split_slash-append_slash s t h.1)

split_slash-plain : (s : Bytes) → All (λ b. b ≢ slash) s → split_slash s ≡ s ∷ []
unfolding split_slash
split_slash-plain [] h = refl
split_slash-plain (b ∷ s) h = ground (arith, split_slash-plain s h.1)

pub split-join :
    (c : Bytes) (cs : List Bytes)
    → All IsPlain (c ∷ cs)
    → split_slash (join_slash (c ∷ cs)) ≡ c ∷ cs
unfolding join_slash
split-join c [] (h, _) = split_slash-plain c h.no_slash
split-join c (d ∷ cs) (h, hs) =
    split_slash-append_slash c _ h.no_slash ∙ ap (λ t. c ∷ t) (split-join d cs hs)

pub is_blank-plain : (n : Bytes) → IsPlain n → is_blank n ≡ false
unfolding is_blank
is_blank-plain [] h = absurd (h.not_empty refl)
is_blank-plain (b ∷ []) h = ground arith
is_blank-plain (b ∷ c ∷ n) h = refl

trim-plain : (cs : List Bytes) → All IsPlain cs → trim cs ≡ cs
unfolding trim
trim-plain [] h = refl
trim-plain (c ∷ cs) (h, hs) = rw (is_blank-plain c h)

reverse-snoc : (ds : List Bytes) (n : Bytes) → reverse (ds ++ n ∷ []) ≡ n ∷ reverse ds
reverse-snoc ds n = reverse-append ds (n ∷ [])

trim-reverse-snoc :
    (ds : List Bytes) (n : Bytes)
    → All IsPlain ds
    → IsPlain n
    → trim (reverse (ds ++ n ∷ [])) ≡ n ∷ reverse ds
trim-reverse-snoc ds n hds h =
    rw (reverse-snoc ds n) (trim-plain (n ∷ reverse ds) (h, All-reverse IsPlain ds hds))

-- `parent` takes the last name off.
parent-snoc :
    (p : Bytes) (ds : List Bytes) (n : Bytes)
    → is_absolute p ≡ false
    → starts_with_cur_dir p ≡ false
    → split_slash p ≡ ds ++ n ∷ []
    → All IsPlain ds
    → IsPlain n
    → parent p ≡ some (join_slash ds)
unfolding parent
parent-snoc p ds n a c e hds h = rw (
  a,
  c,
  e,
  trim-reverse-snoc ds n hds h,
  a,
  c,
  trim-plain (reverse ds) (All-reverse IsPlain ds hds),
  reverse-reverse,
)

-- The parent of a path of plain names, and its file name, if it is not `..`.
pub parent-join :
    (ds : List Bytes) (n : Bytes)
    → All IsPlain ds
    → IsPlain n
    → parent (join_slash (ds ++ n ∷ [])) ≡ some (join_slash ds)
parent-join [] n hds h =
    parent-snoc (join_slash (n ∷ [])) [] n (is_absolute-join n [] h)
      (starts_with_cur_dir-join n [] h) (split-join n [] (h, tt)) tt h
parent-join (d ∷ ds) n (hd, hds) h =
    let all : All IsPlain (d ∷ (ds ++ n ∷ [])) =
      All-append IsPlain (d ∷ ds) (n ∷ []) (hd, hds) (h, tt) in
    parent-snoc (join_slash (d ∷ (ds ++ n ∷ []))) (d ∷ ds) n (is_absolute-join d (ds ++ n ∷ []) hd)
      (starts_with_cur_dir-join d (ds ++ n ∷ []) hd) (split-join d (ds ++ n ∷ []) all) (hd, hds) h

pub file_name-join :
    (ds : List Bytes) (n : Bytes)
    → All IsPlain ds
    → IsPlain n
    → bytes_eq n (dot ∷ dot ∷ []) ≡ false
    → file_name (join_slash (ds ++ n ∷ [])) ≡ some n
unfolding file_name
file_name-join [] n hds h e = rw (
  is_absolute-join n [] h,
  starts_with_cur_dir-join n [] h,
  split-join n [] (h, tt),
  trim-reverse-snoc [] n tt h,
  e,
)
file_name-join (d ∷ ds) n (hd, hds) h e =
    let all : All IsPlain (d ∷ (ds ++ n ∷ [])) =
      All-append IsPlain (d ∷ ds) (n ∷ []) (hd, hds) (h, tt) in
    rw (
      is_absolute-join d (ds ++ n ∷ []) hd,
      starts_with_cur_dir-join d (ds ++ n ∷ []) hd,
      split-join d (ds ++ n ∷ []) all,
      trim-reverse-snoc (d ∷ ds) n (hd, hds) h,
      e,
    )

-- `pop` takes back a plain name that stands behind plain names.
pub pop-join :
    (ds : List Bytes) (n : Bytes)
    → All IsPlain ds
    → IsPlain n
    → pop (join_slash (ds ++ n ∷ [])) ≡ join_slash ds
unfolding pop
pop-join ds n hds h = rw (parent-join ds n hds h)

-- Another file name in the same directory.
pub with_file_name-join :
    (ds : List Bytes) (n new : Bytes)
    → All IsPlain ds
    → IsPlain n
    → IsPlain new
    → bytes_eq n (dot ∷ dot ∷ []) ≡ false
    → with_file_name (join_slash (ds ++ n ∷ [])) new ≡ join_slash (ds ++ new ∷ [])
unfolding with_file_name
with_file_name-join ds n new hds h k e =
    rw (file_name-join ds n hds h e, pop-join ds n hds h) (push-join ds new hds k)

parts-parent :
    (p : Bytes) (parts : List Bytes) (n : Bytes)
    → file_name_of parts ≡ some n
    → parent_of_parts p parts ≢ none
unfolding file_name_of parent_of_parts
parts-parent p [] n e d = cc
parts-parent p (s ∷ ss) n e d = cc

-- A path that has a file name has a parent.
pub file_name-parent : (p n : Bytes) → file_name p ≡ some n → parent p ≢ none
unfolding file_name parent
file_name-parent p n e = parts-parent p _ n e
