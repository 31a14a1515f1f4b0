-- ===== src/Merkle/Canonical.antt =====
-- src/intent.rs: the tree depends on the set of intents alone, not on their order or on repeats.
use dyolo_kya.Prelude.{◌≡◌, refl, ap, List, [], ◌∷◌, In, ◌↔◌, inl, ok, length}
use dyolo_kya.Prelude.Bytes.{Bytes}
use dyolo_kya.Prelude.Sort.{sort, dedup, Ascending-eq, dedup-sort-Ascending, In-dedup-sort}
use dyolo_kya.Crypto.{Crypto}
use dyolo_kya.Merkle.{build, build_layers}

abbrev SameSet : List Bytes → List Bytes → Type 0
SameSet xs ys = (a : Bytes) → In a xs ↔ In a ys

canonical : (xs ys : List Bytes) → SameSet xs ys → dedup (sort xs) ≡ dedup (sort ys)
canonical xs ys same =
    Ascending-eq (dedup (sort xs)) (dedup (sort ys)) (dedup-sort-Ascending xs)
      (dedup-sort-Ascending ys)
      λ a. (
        λ m. (In-dedup-sort a ys).1 ((same a).0 ((In-dedup-sort a xs).0 m)),
        λ m. (In-dedup-sort a xs).1 ((same a).1 ((In-dedup-sort a ys).0 m)),
      )

-- Two lists with the same elements, in any order and with any repeats, build the same tree, and
-- both are refused when they are empty.
pub build_canonical :
    (c : Crypto) (xs ys : List Bytes) → ((a : Bytes) → In a xs ↔ In a ys) → build c xs ≡ build c ys
unfolding build
build_canonical c [] [] same = refl
build_canonical c [] (y ∷ ys) same = absurd ((same y).1 (inl refl))
build_canonical c (x ∷ xs) [] same = absurd ((same x).0 (inl refl))
build_canonical c (x ∷ xs) (y ∷ ys) same =
    ap (λ (l : List Bytes). ok (record { leaves = l; layers = build_layers c (length l) l }))
      (canonical (x ∷ xs) (y ∷ ys) same)
