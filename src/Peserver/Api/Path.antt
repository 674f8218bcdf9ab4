-- ===== src/Peserver/Api/Path.antt =====
-- Which paths `parse_path` accepts.
use program_explorer.Prelude.{
  ℕ, ◌≤◌, ◌≡◌, ◌≢◌, ◌↔◌, refl, sym, ap, ◌∙◌, arith, Bool-cases, true, false, Option, none, some, [],
  ◌∷◌, ◌++◌, length, All, ltb, ◌==◌, ==_iff, inl, inr,
}
use program_explorer.Prelude.Bytes.{Bytes}
use program_explorer.Squash.Deletions.{strip_prefix}
use program_explorer.Squash.Deletions.Reasons.{strip_prefix-eq, strip_prefix-append}
use program_explorer.Peserver.Api.{
  and_then, parse_path, parsed_path, ParsedPath, prefix, slash, split_once, with_front,
}

-- `s` is `front`, the separator and `rest`, and this is the first separator.
abbrev pub Splits : ℕ → Bytes → Bytes → Bytes → Type 0
Splits sep s front rest = (s ≡ front ++ (sep ∷ rest)) × All (λ b. b ≢ sep) front

with_front-some :
    (b : ℕ) (o : Option (Bytes × Bytes)) (p : Bytes × Bytes)
    → with_front b o ≡ some p
    → (q : Bytes × Bytes) × (o ≡ some q) × (p ≡ (b ∷ q.0, q.1))
with_front-some b none p e = absurd (cc)
with_front-some b (some q) p e = (q, refl, cc)

split_once-Splits :
    (sep : ℕ) (s : Bytes) (p : Bytes × Bytes) → split_once sep s ≡ some p → Splits sep s p.0 p.1
unfolding split_once
split_once-Splits sep [] p e = absurd (cc)
split_once-Splits sep (b ∷ s) p e = elim (Bool-cases (b == sep)) [
  | inl h ↦
      let k : some ([], s) ≡ some p = rw h at e in
      let at_sep : b ≡ sep = (==_iff b sep).0 h in
      let q : ([], s) ≡ p = cc in rw (sym q) (rw at_sep refl, tt)
  | inr h ↦
      let k : with_front b (split_once sep s) ≡ some p = rw h at e in
      let w = with_front-some b (split_once sep s) p k in
      let r = split_once-Splits sep s w.0 w.1 in
      rw w.2 (ap (λ t. b ∷ t) r.0, (ground (arith, h), r.1))
]

split_once-some :
    (sep : ℕ) (front rest : Bytes)
    → All (λ b. b ≢ sep) front
    → split_once sep (front ++ (sep ∷ rest)) ≡ some (front, rest)
unfolding split_once
split_once-some sep [] rest h =
    let same : (sep == sep) ≡ true = (==_iff sep sep).1 refl in rw same refl
split_once-some sep (b ∷ front) rest h =
    let other : (b == sep) ≡ false = ground (arith, h.0) in
    rw (other, split_once-some sep front rest h.1) refl

and_then-some :
    {A B : Type 0} (o : Option A) (k : A → Option B) (b : B)
    → and_then o k ≡ some b
    → (a : A) × (o ≡ some a) × (k a ≡ some b)
and_then-some none k b e = absurd (cc)
and_then-some (some a) k b e = (a, refl, e)

-- What an accepted path is made of.
pub record IsPath {Arch Os : Type 0} (arch_from : Bytes → Option Arch) (os_from : Bytes → Option Os)
    (s : Bytes) (p : ParsedPath Arch Os) : Type 0 where
  pub arch_text : Bytes
  pub os_text : Bytes
  pub path_eq : s ≡ prefix ++ (arch_text ++ (slash ∷ (os_text ++ (slash ∷ p.reference))))
  pub arch_NoSlash : All (λ b. b ≢ slash) arch_text
  pub os_NoSlash : All (λ b. b ≢ slash) os_text
  pub arch_eq : arch_from arch_text ≡ some p.arch
  pub os_eq : os_from os_text ≡ some p.os
  pub reference_IsShort : length p.reference ≤ 255

some-eq : {A : Type 0} (a b : A) → some a ≡ some b → a ≡ b
some-eq a b e = cc

module _ {Arch Os : Type 0} (arch_from : Bytes → Option Arch) (os_from : Bytes → Option Os) where
  parsed_path-some :
      (arch os reference : Bytes) (p : ParsedPath Arch Os)
      → parsed_path arch_from os_from arch os reference ≡ some p
      → (arch_from arch ≡ some p.arch)
        × (os_from os ≡ some p.os)
        × (reference ≡ p.reference)
        × (length p.reference ≤ 255)
  unfolding parsed_path
  parsed_path-some arch os reference p e = elim (Bool-cases (ltb 255 (length reference))) [
    | inl h ↦ let k : none ≡ some p = rw h at e in absurd (cc)
    | inr h ↦
        let k = rw h at e in
        let a = and_then-some (arch_from arch) _ p k in
        let o = and_then-some (os_from os) _ p a.2 in
        let fields : ParsedPath Arch Os = record { reference = reference; arch = a.0; os = o.0 } in
        let same : fields ≡ p = some-eq fields p o.2 in
        let same_reference : reference ≡ p.reference = ap (λ q. q.reference) same in
        let short : length reference ≤ 255 = ground (arith, h) in
        (
          a.1 ∙ ap (λ q. some q.arch) same,
          o.1 ∙ ap (λ q. some q.os) same,
          same_reference,
          rw same_reference at short,
        )
  ]

  parsed_path-known :
      (arch os : Bytes) (p : ParsedPath Arch Os)
      → arch_from arch ≡ some p.arch
      → os_from os ≡ some p.os
      → ltb 255 (length p.reference) ≡ false
      → parsed_path arch_from os_from arch os p.reference ≡ some p
  unfolding parsed_path
  parsed_path-known arch os p a o h = rw (h, a, o) refl

  -- `parse_path` gives exactly the parts of a path: the prefix, a text of the architecture and one of the
  -- operating system, neither with a slash and both of which are known, and a reference of at most
  -- 255 bytes, which may have slashes.
  pub parse_path_iff :
      (s : Bytes) (p : ParsedPath Arch Os)
      → (parse_path arch_from os_from s ≡ some p) ↔ IsPath arch_from os_from s p
  unfolding parse_path
  parse_path_iff s p = (
    λ e.
        let a = and_then-some (strip_prefix s prefix) _ p e in
        let b = and_then-some (split_once slash a.0) _ p a.2 in
        let c = and_then-some (split_once slash (b.0).1) _ p b.2 in
        let f = parsed_path-some (b.0).0 (c.0).0 (c.0).1 p c.2 in
        let first = split_once-Splits slash a.0 b.0 b.1 in
        let second = split_once-Splits slash (b.0).1 c.0 c.1 in
        record {
          arch_text = (b.0).0;
          os_text = (c.0).0;
          path_eq =
              strip_prefix-eq s prefix a.0 a.1
              ∙ ap (λ t. prefix ++ t)
                  (first.0
                    ∙ ap (λ t. (b.0).0 ++ (slash ∷ t))
                        (second.0 ∙ ap (λ t. (c.0).0 ++ (slash ∷ t)) f.2));
          arch_NoSlash = first.1;
          os_NoSlash = second.1;
          arch_eq = f.0;
          os_eq = f.1;
          reference_IsShort = f.3;
        },
    λ k.
        let fits : ltb 255 (length p.reference) ≡ false =
          let short : length p.reference ≤ 255 = k.reference_IsShort in ground (arith, short) in
        rw
          (
            k.path_eq,
            strip_prefix-append prefix
                (k.arch_text ++ (slash ∷ (k.os_text ++ (slash ∷ p.reference)))),
            split_once-some slash k.arch_text (k.os_text ++ (slash ∷ p.reference)) k.arch_NoSlash,
            split_once-some slash k.os_text p.reference k.os_NoSlash,
            parsed_path-known k.arch_text k.os_text p k.arch_eq k.os_eq fits,
          )
          refl,
  )
