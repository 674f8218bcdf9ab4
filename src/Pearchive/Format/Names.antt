-- ===== src/Pearchive/Format/Names.antt =====
-- What `read_cstr` accepts.
use program_explorer.Prelude.{
  ℕ, zero, suc, ◌≤◌, ◌<◌, ◌≡◌, ◌≢◌, ◌↔◌, sym, ap, ◌∙◌, arith, [], ◌∷◌, ◌++◌, length, All,
  append_assoc, append-nil,
}
use program_explorer.Prelude.Result.{ok}
use program_explorer.Prelude.Bytes.{Bytes}
use program_explorer.Pearchive.Format.{find_nul, read_cstr}

find_nul-ok :
    (n : ℕ) (seen cur name rest : Bytes)
    → find_nul n seen cur ≡ ok (name, rest)
    → (s : Bytes) × (name ≡ seen ++ s) × (cur ≡ s ++ 0 ∷ rest) × (length s < n) × All (λ b. b ≢ 0) s
unfolding find_nul
find_nul-ok zero seen cur name rest h = absurd (cc)
find_nul-ok (suc n) seen [] name rest h = absurd (cc)
find_nul-ok (suc n) seen (zero ∷ cur) name rest h =
    ([], ground (arith, append-nil seen), ground arith, omega arith, tt)
find_nul-ok (suc n) seen (suc b ∷ cur) name rest h =
    let found : find_nul n (seen ++ suc b ∷ []) cur ≡ ok (name, rest) = ground arith in
    let (s, e, c, l, a) = find_nul-ok n (seen ++ suc b ∷ []) cur name rest found in
    (
      suc b ∷ s,
      e ∙ append_assoc seen (suc b ∷ []) s,
      ap (λ t. suc b ∷ t) c,
      omega arith,
      ((λ p. omega arith), a),
    )

find_nul-append :
    (n : ℕ) (seen s rest : Bytes)
    → All (λ b. b ≢ 0) s
    → length s < n
    → find_nul n seen (s ++ 0 ∷ rest) ≡ ok (seen ++ s, rest)
unfolding find_nul
find_nul-append zero seen s rest h lt = absurd (omega arith)
find_nul-append (suc n) seen [] rest h lt = rw append-nil
find_nul-append (suc n) seen (b ∷ s) rest (hb, hs) lt =
    ground (arith, find_nul-append n (seen ++ b ∷ []) s rest hs, append_assoc seen (b ∷ []) s)

-- The name `b ∷ s` and its terminator stand in front of the rest; `b` may be any byte, nul too.
pub record IsCstr (input name rest : Bytes) : Type 0 where
  pub first : ℕ
  pub others : Bytes
  pub name_eq : name ≡ first ∷ others
  pub input_eq : input ≡ name ++ 0 ∷ rest
  pub short : length name ≤ 255
  pub no_nul : All (λ c. c ≢ 0) others

ok-IsCstr : (input name rest : Bytes) → read_cstr input ≡ ok (name, rest) → IsCstr input name rest
unfolding read_cstr
ok-IsCstr [] name rest h = absurd (cc)
ok-IsCstr (b ∷ []) name rest h = absurd (cc)
ok-IsCstr (b ∷ c ∷ input) name rest h =
    let (s, e, i, l, a) = find_nul-ok 255 (b ∷ []) (c ∷ input) name rest h in
    record {
      first = b;
      others = s;
      name_eq = e;
      input_eq = ap (λ t. b ∷ t) i ∙ ap (λ t. t ++ 0 ∷ rest) (sym e);
      short = omega (arith, ap length e);
      no_nul = a;
    }

pub read_cstr-cons :
    (b : ℕ) (s rest : Bytes)
    → All (λ c. c ≢ 0) s
    → length s < 255
    → read_cstr (b ∷ (s ++ 0 ∷ rest)) ≡ ok (b ∷ s, rest)
unfolding read_cstr
read_cstr-cons b [] rest h le = find_nul-append 255 (b ∷ []) [] rest tt (omega arith)
read_cstr-cons b (c ∷ s) rest h le = find_nul-append 255 (b ∷ []) (c ∷ s) rest h le

IsCstr-ok : (input name rest : Bytes) → IsCstr input name rest → read_cstr input ≡ ok (name, rest)
IsCstr-ok input name rest h =
    rw (h.input_eq, h.name_eq)
      (read_cstr-cons h.first h.others rest h.no_nul (omega (arith, h.short, ap length h.name_eq)))

-- `read_cstr` accepts exactly a name of 1 to 255 bytes that stands with its terminator in front of
-- the rest and has no nul behind its first byte. The first byte is not looked at: it may be nul.
pub read_cstr_iff :
    (input name rest : Bytes) → (read_cstr input ≡ ok (name, rest)) ↔ IsCstr input name rest
read_cstr_iff input name rest = (ok-IsCstr input name rest, IsCstr-ok input name rest)
