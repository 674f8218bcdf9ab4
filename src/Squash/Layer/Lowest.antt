-- ===== src/Squash/Layer/Lowest.antt =====
-- What comes into the image from the lowest layer, beside what came from those above it.
use program_explorer.Prelude.{
  ◌≡◌, refl, sym, ◌∙◌, ap, List, [], ◌∷◌, ◌++◌, All, All-append, Option, none, some, map,
  append-nil, append_assoc,
}
use mathlib.Core.Path.{subst}
use program_explorer.Prelude.Result.{Result, ok, Succeeds, Succeeds-bind}
use program_explorer.Squash.Mark.{Error, Whiteout}
use program_explorer.Squash.Deletions.{DeletionReason, is_deleted}
use program_explorer.Squash.Deletions.Keys.{IsSorted}
use program_explorer.Squash.Layer.{
  Entry, Squash, Stats, Compression, squash_entry, squash_entries, squash_layer, after_whiteout,
  after_deleted, store, store_seen, close, squash_cb, finish,
}
use program_explorer.Squash.Layer.Run.{
  collect, IsReadable, squash_entry-Succeeds, squash_cb-Succeeds,
}
use program_explorer.Squash.Layer.Once.{
  Apart, DistinctBare, DistinctBare-snoc, Hidden, Hidden-Apart, Upper, Upper-layer,
}

module _ {ℓ} {T : Type ℓ} where
  -- Every entry of the first list is apart from every one of the second.
  abbrev pub AllApart : List (Entry T) → List (Entry T) → Type 0
  AllApart xs ys = All (λ x. All (Apart x) ys) xs

  AllApart-nil : (xs : List (Entry T)) → AllApart xs []
  AllApart-nil [] = tt
  AllApart-nil (x ∷ xs) = (tt, AllApart-nil xs)

  AllApart-snoc :
      (xs ys : List (Entry T)) (e : Entry T)
      → AllApart xs ys
      → All (λ x. Apart x e) xs
      → AllApart xs (ys ++ e ∷ [])
  AllApart-snoc [] ys e h k = tt
  AllApart-snoc (x ∷ xs) ys e (h, hs) (k, ks) =
      (All-append (Apart x) ys (e ∷ []) h (k, tt), AllApart-snoc xs ys e hs ks)

  -- The first list is the second with some entries left out.
  pub data IsPart : List (Entry T) → List (Entry T) → Type ℓ where
    neither : IsPart [] []
    kept :
        (ys es : List (Entry T)) (e : Entry T) → IsPart ys es → IsPart (ys ++ e ∷ []) (es ++ e ∷ [])
    left_out : (ys es : List (Entry T)) (e : Entry T) → IsPart ys es → IsPart ys (es ++ e ∷ [])

  All-init :
      (P : Entry T → Type 0) (xs : List (Entry T)) (e : Entry T)
      → All P (xs ++ e ∷ [])
      → All P xs × P e
  All-init P [] e (h, _) = (tt, h)
  All-init P (x ∷ xs) e (h, hs) = let (k, l) = All-init P xs e hs in ((h, k), l)

  DistinctBare-init :
      (xs : List (Entry T)) (e : Entry T)
      → DistinctBare (xs ++ e ∷ [])
      → DistinctBare xs × All (λ x. Apart x e) xs
  DistinctBare-init [] e h = (tt, tt)
  DistinctBare-init (x ∷ xs) e (h, hs) =
      let (k, l) = All-init (Apart x) xs e h in
      let (m, n) = DistinctBare-init xs e hs in ((k, m), (l, n))

  All-IsPart : (P : Entry T → Type 0) (ys es : List (Entry T)) → IsPart ys es → All P es → All P ys
  All-IsPart P _ _ neither h = tt
  All-IsPart P _ _ (kept ys es e q) h =
      let (k, l) = All-init P es e h in All-append P ys (e ∷ []) (All-IsPart P ys es q k) (l, tt)
  All-IsPart P _ _ (left_out ys es e q) h = All-IsPart P ys es q (All-init P es e h).0

  DistinctBare-IsPart : (ys es : List (Entry T)) → IsPart ys es → DistinctBare es → DistinctBare ys
  DistinctBare-IsPart _ _ neither h = tt
  DistinctBare-IsPart _ _ (kept ys es e q) h =
      let (k, l) = DistinctBare-init es e h in
      DistinctBare-snoc ys e (DistinctBare-IsPart ys es q k) (All-IsPart (λ x. Apart x e) ys es q l)
  DistinctBare-IsPart _ _ (left_out ys es e q) h =
      DistinctBare-IsPart ys es q (DistinctBare-init es e h).0

  DistinctBare-append :
      (xs ys : List (Entry T))
      → DistinctBare xs
      → DistinctBare ys
      → AllApart xs ys
      → DistinctBare (xs ++ ys)
  DistinctBare-append [] ys h k a = k
  DistinctBare-append (x ∷ xs) ys (h, hs) k (a, rest) =
      (All-append (Apart x) xs ys h a, DistinctBare-append xs ys hs k rest)

  -- What is written is a list without a bare path twice, and entries of the lowest layer `es` in their
  -- order, of which none has a bare path of the first list.
  pub record IsParted (es out : List (Entry T)) : Type ℓ where
    pub above : List (Entry T)
    pub lowest : List (Entry T)
    pub out_eq : out ≡ above ++ lowest
    pub part : IsPart lowest es
    pub distinct : DistinctBare above
    pub apart : AllApart above lowest

  IsParted-DistinctBare :
      (es out : List (Entry T)) → IsParted es out → DistinctBare es → DistinctBare out
  IsParted-DistinctBare es out p d = rw p.out_eq (
      DistinctBare-append p.above p.lowest p.distinct (DistinctBare-IsPart p.lowest es p.part d)
        p.apart)

  -- While the lowest layer is read, of which `es` is behind: its entries hide nothing, and those of the
  -- layers above stay hidden.
  record InLowest (es : List (Entry T)) (q : Squash (List (Entry T))) : Type ℓ where
    parted : IsParted es q.cb
    sorted : IsSorted q.deletions.map
    hidden : Hidden q.deletions parted.above

  Upper-InLowest : (q : Squash (List (Entry T))) → Upper q → InLowest [] q
  Upper-InLowest q h = record {
    parted = record {
      above = q.cb;
      lowest = [];
      out_eq = sym (append-nil q.cb);
      part = neither;
      distinct = h.distinct;
      apart = AllApart-nil q.cb;
    };
    sorted = h.sorted;
    hidden = h.hidden;
  }

  InLowest-skip :
      (es : List (Entry T)) (q q' : Squash (List (Entry T))) (e : Entry T)
      → q'.cb ≡ q.cb
      → q'.deletions ≡ q.deletions
      → InLowest es q
      → InLowest (es ++ e ∷ []) q'
  InLowest-skip es q q' e c d h =
      let p = h.parted in
      record {
        parted = record {
          above = p.above;
          lowest = p.lowest;
          out_eq = c ∙ p.out_eq;
          part = left_out p.lowest es e p.part;
          distinct = p.distinct;
          apart = p.apart;
        };
        sorted = rw d h.sorted;
        hidden = rw d h.hidden;
      }

  InLowest-emit :
      (es : List (Entry T)) (q : Squash (List (Entry T))) (e : Entry T) (o : Option DeletionReason)
      → InLowest es q
      → is_deleted e.path q.deletions ≡ o
      → Succeeds (InLowest (es ++ e ∷ [])) (after_deleted collect 0 q e o)
  unfolding after_deleted store_seen
  InLowest-emit es q e (some reason) h k = InLowest-skip es q _ e refl refl h
  InLowest-emit es q e none h k =
      let p = h.parted in
      record {
        parted = record {
          above = p.above;
          lowest = p.lowest ++ e ∷ [];
          out_eq = ap (λ t. t ++ e ∷ []) p.out_eq ∙ append_assoc p.above p.lowest (e ∷ []);
          part = kept p.lowest es e p.part;
          distinct = p.distinct;
          apart =
              AllApart-snoc p.above p.lowest e p.apart
                (Hidden-Apart q.deletions p.above e h.sorted h.hidden k);
        };
        sorted = h.sorted;
        hidden = h.hidden;
      }

  InLowest-mark :
      (es : List (Entry T)) (q : Squash (List (Entry T))) (e : Entry T) (w : Option Whiteout)
      → InLowest es q
      → Succeeds (InLowest (es ++ e ∷ [])) (after_whiteout collect 0 q e w)
  unfolding after_whiteout store
  InLowest-mark es q e (some w) h = InLowest-skip es q _ e refl refl h
  InLowest-mark es q e none h = InLowest-emit es q e _ h refl

  InLowest-entries :
      (es rest : List (Entry T)) (q : Squash (List (Entry T)))
      → InLowest es q
      → Succeeds (λ q. IsParted (es ++ rest) q.cb) (squash_entries collect 0 q (map ok rest))
  unfolding squash_entries
  InLowest-entries es [] q h = rw append-nil h.parted
  InLowest-entries es (e ∷ rest) q h =
      Succeeds-bind (InLowest (es ++ e ∷ [])) (λ q. IsParted (es ++ e ∷ rest) q.cb)
        (squash_entry collect 0 q e) (λ q'. squash_entries collect 0 q' (map ok rest))
        (squash_entry-Succeeds (InLowest (es ++ e ∷ [])) 0 q e (λ w. InLowest-mark es q e w h))
        (λ q' h'.
          subst (λ t. Succeeds (λ q. IsParted t q.cb) (squash_entries collect 0 q' (map ok rest)))
            (append_assoc es (e ∷ []) rest) (InLowest-entries (es ++ e ∷ []) rest q' h'))

  InLowest-layer :
      (q : Squash (List (Entry T))) (es : List (Entry T))
      → Upper q
      → Succeeds (λ q. IsParted es q.cb) (squash_layer collect 0 q (ok (map ok es)))
  unfolding squash_layer close
  InLowest-layer q es h =
      Succeeds-bind (λ q. IsParted es q.cb) (λ q. IsParted es q.cb)
        (squash_entries collect 0 q (map ok es)) (λ q'. ok q')
        (InLowest-entries [] es q (Upper-InLowest q h)) (λ q' h'. h')

  module _ {κ} {R : Type κ}
      (decode : Compression → R → Result Error (List (Result Error (Entry T)))) where
    -- Squashing layers that can all be read, with the callback that collects the entries, succeeds, and
    -- what is written is a list without a path twice, and behind it entries of the lowest layer, in their
    -- order, of which none has a path of that list; where paths are compared, those that end in a slash,
    -- as an archive spells a directory, are left out: such a one may be written once for each layer that has it.
    -- So a path without a trailing slash is written at most once, if the lowest layer itself holds
    -- none twice.
    pub squash_cb-IsParted :
        (c : Compression) (base : R) (es : List (Entry T)) (upper : List (Compression × R))
        → decode c base ≡ ok (map ok es)
        → All (λ l. IsReadable (decode l.0 l.1)) upper
        → Succeeds
            (λ (r : List (Entry T) × Stats). IsParted es r.0 × (DistinctBare es → DistinctBare r.0))
            (squash_cb decode collect [] ((c, base) ∷ upper))
    unfolding finish
    squash_cb-IsParted c base es upper e rs =
        squash_cb-Succeeds decode Upper (λ q. IsParted es q.cb)
          (λ r. IsParted es r.0 × (DistinctBare es → DistinctBare r.0)) (c, base) upper
          (λ i q k l rd h. Upper-layer i q (decode k l) rd h) (λ q h. rw e (InLowest-layer q es h))
          (λ q h. (h, IsParted-DistinctBare es q.cb h)) rs
          (record { sorted = tt; hidden = tt; distinct = tt })
