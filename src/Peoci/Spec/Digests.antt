-- ===== src/Peoci/Spec/Digests.antt =====
-- How a digest is read from a text.
use program_explorer.Prelude.{
  ℕ, ◌≡◌, ◌≢◌, refl, arith, false, Option, none, some, [], ◌∷◌, ◌++◌, All, ◌==◌,
}
use program_explorer.Prelude.Bytes.{Bytes, bytes_eq, bytes_eq_iff, codes}
use program_explorer.Prelude.Result.{ok, err, ◌>>=◌, ok_or}
use program_explorer.Peoci.Spec.{
  bad_digest, unhandled_digest, sha256, split_once, digest_from_str, digest_of_parts, hex_decode,
}

abbrev pub colon : ℕ
colon = 0x3a

pub split_once-colon :
    (a b : Bytes) → All (λ x. x ≢ colon) a → split_once (a ++ colon ∷ b) ≡ some (a, b)
unfolding split_once
split_once-colon [] b h = refl
split_once-colon (x ∷ a) b (h, hs) =
    let e : (x == colon) ≡ false = ground arith in rw (e, split_once-colon a b hs) refl

pub split_once-none : (s : Bytes) → All (λ x. x ≢ colon) s → split_once s ≡ none
unfolding split_once
split_once-none [] h = refl
split_once-none (x ∷ s) (h, hs) =
    let e : (x == colon) ≡ false = ground arith in rw (e, split_once-none s hs) refl

-- How a digest is read from a text: behind `sha256:` the rest is decoded into 32 bytes, and what
-- does not decode is a bad digest; behind another name and a colon the digest is refused with that
-- name; and a text without a colon is a bad digest.
pub digest_from_str-cases :
    (decode_to_slice : ℕ → Bytes → Option Bytes) (a b : Bytes)
    → All (λ x. x ≢ colon) a
    → (digest_from_str decode_to_slice (codes "sha256:" ++ b)
        ≡ (ok_or (decode_to_slice 32 b) bad_digest >>= λ bytes. ok (sha256 bytes)))
      × ((a ≢ codes "sha256")
          → digest_from_str decode_to_slice (a ++ colon ∷ b) ≡ err (unhandled_digest a))
      × (digest_from_str decode_to_slice a ≡ err bad_digest)
unfolding digest_from_str digest_of_parts hex_decode
digest_from_str-cases decode_to_slice a b h = (
  unfold bytes_eq in refl,
  λ n.
      let ne : bytes_eq a (codes "sha256") ≡ false =
        ground (arith, bytes_eq_iff a (codes "sha256")) in
      rw (split_once-colon a b h, ne) refl,
  rw (split_once-none a h) refl,
)
