-- ===== src/Prelude/Sort.antt =====
-- `sort_unstable` and `dedup` on byte strings, which Rust compares lexicographically.
use mathlib.Core.Path.{◌≡◌, refl, ap, sym, subst}
use mathlib.Core.Logic.{◌≢◌, ◌⊎◌, inl, inr, ◌↔◌}
use mathlib.Core.Bool.{Bool, true, false}
use mathlib.Core.List.{List, [], ◌∷◌}
use native.Mathlib.Omega.{arith}
use dyolo_kya.Prelude.Tests.{◌==◌, nat_eq, if◌then◌else◌, ltb, Bool-cases}
use dyolo_kya.Prelude.Lists.{In, All}
use dyolo_kya.Prelude.Bytes.{Bytes, bytes_eq, bytes_beq_iff}

unfoldable pub bytes_lt : Bytes → Bytes → Bool
bytes_lt [] [] = false
bytes_lt [] (y ∷ ys) = true
bytes_lt (x ∷ xs) [] = false
bytes_lt (x ∷ xs) (y ∷ ys) = if ltb x y then true else if x == y then bytes_lt xs ys else false

bytes_lt_irrefl : (a : Bytes) → bytes_lt a a ≡ false
unfolding bytes_lt
bytes_lt_irrefl [] = refl
bytes_lt_irrefl (x ∷ xs) = ground (arith, bytes_lt_irrefl xs)

bytes_lt-asymm : (a b : Bytes) → bytes_lt a b ≡ true → bytes_lt b a ≡ false
unfolding bytes_lt
bytes_lt-asymm [] [] h = refl
bytes_lt-asymm [] (y ∷ ys) h = refl
bytes_lt-asymm (x ∷ xs) [] h = cc
bytes_lt-asymm (x ∷ xs) (y ∷ ys) h = ground (arith, bytes_lt-asymm xs ys)

-- A value that is not above another lies below it or is equal to it.
lt_of_not_gt : (a b : Bytes) → bytes_lt b a ≡ false → a ≢ b → bytes_lt a b ≡ true
unfolding bytes_lt
lt_of_not_gt [] [] h n = absurd (n refl)
lt_of_not_gt [] (y ∷ ys) h n = refl
lt_of_not_gt (x ∷ xs) [] h n = cc
lt_of_not_gt (x ∷ xs) (y ∷ ys) h n = ground (arith, lt_of_not_gt xs ys)

lt_of_lt_of_not_gt :
    (a b d : Bytes) → bytes_lt a b ≡ true → bytes_lt d b ≡ false → bytes_lt a d ≡ true
unfolding bytes_lt
lt_of_lt_of_not_gt [] [] d h k = cc
lt_of_lt_of_not_gt [] (y ∷ ys) [] h k = cc
lt_of_lt_of_not_gt [] (y ∷ ys) (z ∷ zs) h k = refl
lt_of_lt_of_not_gt (x ∷ xs) [] d h k = cc
lt_of_lt_of_not_gt (x ∷ xs) (y ∷ ys) [] h k = cc
lt_of_lt_of_not_gt (x ∷ xs) (y ∷ ys) (z ∷ zs) h k = ground (arith, lt_of_lt_of_not_gt xs ys zs)

not_gt_trans : (a b d : Bytes) → bytes_lt b a ≡ false → bytes_lt d b ≡ false → bytes_lt d a ≡ false
unfolding bytes_lt
not_gt_trans [] [] [] h k = refl
not_gt_trans [] [] (z ∷ zs) h k = refl
not_gt_trans [] (y ∷ ys) [] h k = refl
not_gt_trans [] (y ∷ ys) (z ∷ zs) h k = refl
not_gt_trans (x ∷ xs) [] d h k = cc
not_gt_trans (x ∷ xs) (y ∷ ys) [] h k = cc
not_gt_trans (x ∷ xs) (y ∷ ys) (z ∷ zs) h k = ground (arith, not_gt_trans xs ys zs)

insert_sorted : Bytes → List Bytes → List Bytes
insert_sorted x [] = x ∷ []
insert_sorted x (y ∷ ys) = if bytes_lt y x then y ∷ insert_sorted x ys else x ∷ y ∷ ys

-- `sort_unstable`: equal byte strings cannot be told apart, so every correct sort returns this list.
unfoldable pub sort : List Bytes → List Bytes
unfolding insert_sorted bytes_lt
sort [] = []
sort (x ∷ xs) = insert_sorted x (sort xs)

-- `dedup`: of equal neighbours one is kept.
unfoldable pub dedup : List Bytes → List Bytes
dedup [] = []
dedup (x ∷ []) = x ∷ []
dedup (x ∷ y ∷ r) = let rest = dedup (y ∷ r) in if x == y then rest else x ∷ rest

abbrev Sorted : List Bytes → Type 0
Sorted [] = Unit
Sorted (x ∷ xs) = All (λ y. bytes_lt y x ≡ false) xs × Sorted xs

-- Each element lies below all that follow it.
abbrev pub Ascending : List Bytes → Type 0
Ascending [] = Unit
Ascending (x ∷ xs) = All (λ y. bytes_lt x y ≡ true) xs × Ascending xs

All-imp :
    {P Q : Bytes → Type 0} → ((x : Bytes) → P x → Q x) → (xs : List Bytes) → All P xs → All Q xs
All-imp f [] h = tt
All-imp f (x ∷ xs) h = (f x h.0, All-imp f xs h.1)

All-insert_sorted :
    (P : Bytes → Type 0) (x : Bytes) (ys : List Bytes) → P x → All P ys → All P (insert_sorted x ys)
unfolding insert_sorted
All-insert_sorted P x [] p h = (p, tt)
All-insert_sorted P x (y ∷ ys) p h = ground (arith, All-insert_sorted P x ys p h.1)

insert_sorted-Sorted : (x : Bytes) (ys : List Bytes) → Sorted ys → Sorted (insert_sorted x ys)
unfolding insert_sorted
insert_sorted-Sorted x [] s = (tt, tt)
insert_sorted-Sorted x (y ∷ ys) s = elim (Bool-cases (bytes_lt y x)) [
  | inl below ↦ rw below (
    All-insert_sorted (λ z. bytes_lt z y ≡ false) x ys (bytes_lt-asymm y x below) s.0,
    insert_sorted-Sorted x ys s.1,
  )
  | inr above ↦ rw above ((above, All-imp (λ z h. not_gt_trans x y z above h) ys s.0), s)
]

sort-Sorted : (xs : List Bytes) → Sorted (sort xs)
unfolding sort
sort-Sorted [] = tt
sort-Sorted (x ∷ xs) = insert_sorted-Sorted x (sort xs) (sort-Sorted xs)

All-dedup : (P : Bytes → Type 0) (xs : List Bytes) → All P xs → All P (dedup xs)
unfolding dedup
All-dedup P [] h = tt
All-dedup P (x ∷ []) h = h
All-dedup P (x ∷ y ∷ r) h = ground (arith, All-dedup P (y ∷ r) h.1)

dedup-Ascending : (xs : List Bytes) → Sorted xs → Ascending (dedup xs)
unfolding dedup
dedup-Ascending [] s = tt
dedup-Ascending (x ∷ []) s = (tt, tt)
dedup-Ascending (x ∷ y ∷ r) s = elim (Bool-cases (x == y)) [
  | inl same ↦ rw same (dedup-Ascending (y ∷ r) s.1)
  | inr differ ↦
      let less : bytes_lt x y ≡ true =
        lt_of_not_gt x y s.0.0 (λ e. ground (arith, bytes_beq_iff x y)) in
      rw differ (
        All-dedup (λ z. bytes_lt x z ≡ true) (y ∷ r)
            (less, All-imp (λ z h. lt_of_lt_of_not_gt x y z less h) r s.1.0),
        dedup-Ascending (y ∷ r) s.1,
      )
]

pub dedup-sort-Ascending : (xs : List Bytes) → Ascending (dedup (sort xs))
dedup-sort-Ascending xs = dedup-Ascending (sort xs) (sort-Sorted xs)

In-insert_sorted : (a x : Bytes) (ys : List Bytes) → In a (insert_sorted x ys) ↔ ((a ≡ x) ⊎ In a ys)
unfolding insert_sorted
In-insert_sorted a x [] = (λ h. h, λ h. h)
In-insert_sorted a x (y ∷ ys) = (
  λ h. ground (arith, (In-insert_sorted a x ys).0),
  λ h. ground (arith, (In-insert_sorted a x ys).1),
)

In-sort : (a : Bytes) (xs : List Bytes) → In a (sort xs) ↔ In a xs
unfolding sort
In-sort a [] = (λ h. h, λ h. h)
In-sort a (x ∷ xs) = (
  λ h. ground (arith, (In-insert_sorted a x (sort xs)).0, (In-sort a xs).0),
  λ h. (In-insert_sorted a x (sort xs)).1 (ground (arith, (In-sort a xs).1)),
)

In-dedup : (a : Bytes) (xs : List Bytes) → In a (dedup xs) ↔ In a xs
unfolding dedup
In-dedup a [] = (λ h. h, λ h. h)
In-dedup a (x ∷ []) = (λ h. h, λ h. h)
In-dedup a (x ∷ y ∷ r) = (
  λ h. ground (arith, (In-dedup a (y ∷ r)).0, bytes_beq_iff x y),
  λ h. ground (arith, (In-dedup a (y ∷ r)).1, bytes_beq_iff x y),
)

-- Sorting and removing duplicates keeps the set of elements.
pub In-dedup-sort : (a : Bytes) (xs : List Bytes) → In a (dedup (sort xs)) ↔ In a xs
In-dedup-sort a xs = (
  λ h. (In-sort a xs).0 ((In-dedup a (sort xs)).0 h),
  λ h. (In-dedup a (sort xs)).1 ((In-sort a xs).1 h),
)

pub All-In : (P : Bytes → Type 0) (a : Bytes) (xs : List Bytes) → All P xs → In a xs → P a
All-In P a [] h m = elim m [ ]
All-In P a (x ∷ xs) h (inl e) = subst P (sym e) h.0
All-In P a (x ∷ xs) h (inr m) = All-In P a xs h.1 m

Ascending-tails :
    (x : Bytes) (xs ys : List Bytes)
    → Ascending (x ∷ xs)
    → ((a : Bytes) → In a (x ∷ xs) → In a (x ∷ ys))
    → (a : Bytes) → In a xs
    → In a ys
Ascending-tails x xs ys s f a m = elim (f a (inr m)) [
  | inl e ↦ absurd (ground (arith, All-In (λ z. bytes_lt x z ≡ true) a xs s.0 m, bytes_lt_irrefl x))
  | inr t ↦ t
]

Ascending-heads :
    (x y : Bytes) (xs ys : List Bytes)
    → Ascending (x ∷ xs)
    → Ascending (y ∷ ys)
    → In x (y ∷ ys)
    → In y (x ∷ xs)
    → x ≡ y
Ascending-heads x y xs ys s t (inl e) k = e
Ascending-heads x y xs ys s t (inr m) (inl e) = sym e
Ascending-heads x y xs ys s t (inr m) (inr n) = absurd (
    ground (
      arith,
      All-In (λ z. bytes_lt y z ≡ true) x ys t.0 m,
      All-In (λ z. bytes_lt x z ≡ true) y xs s.0 n,
      bytes_lt-asymm x y,
    ))

-- An ascending list is determined by its set of elements.
pub Ascending-eq :
    (xs ys : List Bytes) → Ascending xs → Ascending ys → ((a : Bytes) → In a xs ↔ In a ys) → xs ≡ ys
Ascending-eq [] [] s t f = refl
Ascending-eq [] (y ∷ ys) s t f = absurd ((f y).1 (inl refl))
Ascending-eq (x ∷ xs) [] s t f = absurd ((f x).0 (inl refl))
Ascending-eq (x ∷ xs) (y ∷ ys) s t f =
    let heads : x ≡ y = Ascending-heads x y xs ys s t ((f x).0 (inl refl)) ((f y).1 (inl refl)) in
    rw heads (
      ap (◌∷◌ y) (
        Ascending-eq xs ys s.1 t.1 λ a. (
          Ascending-tails x xs ys s (λ b m. subst (λ z. In b (z ∷ ys)) (sym heads) ((f b).0 m)) a,
          Ascending-tails y ys xs t (λ b m. subst (λ z. In b (z ∷ xs)) heads ((f b).1 m)) a,
        )))
