-- ===== src/Common/Sorting.antt =====
-- A stable sort, as Python's `sorted` and an `ORDER BY` over rows in the order of the table.
use mathlib.Core.Path.{◌≡◌, refl}
use mathlib.Core.Bool.{Bool, true, false, not}
use Prim.Native.Nat.{ℕ, zero, suc, ◌<◌}
use mathlib.Core.Logic.{inl, inr}
use mathlib.Core.List.{List, [], ◌∷◌}
use native.Mathlib.Omega.{arith}
use vodum.Common.Tests.{if◌then◌else◌, Bool-cases}
use vodum.Common.Lists.{All, any, count_rows, take}

module _ {ℓ} {A : Type ℓ} where
  -- `goes_first x y` tells whether `x`, which stands before `y`, may stay there.
  abbrev pub insert_by : (A → A → Bool) → A → List A → List A
  insert_by goes_first x [] = x ∷ []
  insert_by goes_first x (y ∷ ys) =
      if goes_first x y then x ∷ y ∷ ys else y ∷ insert_by goes_first x ys

  abbrev pub sort_by : (A → A → Bool) → List A → List A
  sort_by goes_first [] = []
  sort_by goes_first (x ∷ xs) = insert_by goes_first x (sort_by goes_first xs)

  pub All-insert_by {κ} :
      (P : A → Type κ) (goes_first : A → A → Bool) (x : A) (xs : List A)
      → P x
      → All P xs
      → All P (insert_by goes_first x xs)
  All-insert_by P goes_first x [] h hs = (h, tt)
  All-insert_by P goes_first x (y ∷ ys) h hs = elim (Bool-cases (goes_first x y)) [
    | inl t ↦ rw t (h, hs)
    | inr f ↦ rw f (hs.0, All-insert_by P goes_first x ys h hs.1)
  ]

  pub All-sort_by {κ} :
      (P : A → Type κ) (goes_first : A → A → Bool) (xs : List A)
      → All P xs
      → All P (sort_by goes_first xs)
  All-sort_by P goes_first [] h = tt
  All-sort_by P goes_first (x ∷ xs) h =
      All-insert_by P goes_first x (sort_by goes_first xs) h.0 (All-sort_by P goes_first xs h.1)

  count_rows-insert_by :
      (p : A → Bool) (goes_first : A → A → Bool) (x : A) (xs : List A)
      → count_rows p (insert_by goes_first x xs) ≡ count_rows p (x ∷ xs)
  count_rows-insert_by p goes_first x [] = refl
  count_rows-insert_by p goes_first x (y ∷ ys) =
      ground (arith, count_rows-insert_by p goes_first x ys)

  -- The sort keeps every row, as often as it stands there.
  pub count_rows-sort_by :
      (p : A → Bool) (goes_first : A → A → Bool) (xs : List A)
      → count_rows p (sort_by goes_first xs) ≡ count_rows p xs
  count_rows-sort_by p goes_first [] = refl
  count_rows-sort_by p goes_first (x ∷ xs) = omega (
    arith,
    count_rows-insert_by p goes_first x (sort_by goes_first xs),
    count_rows-sort_by p goes_first xs,
  )

  -- What all sorted rows have, all rows have.
  All-insert_by_back {κ} :
      (P : A → Type κ) (goes_first : A → A → Bool) (x : A) (xs : List A)
      → All P (insert_by goes_first x xs)
      → P x × All P xs
  All-insert_by_back P goes_first x [] h = h
  All-insert_by_back P goes_first x (y ∷ ys) h = elim (Bool-cases (goes_first x y)) [
    | inl t ↦ rw t at h
    | inr f ↦
        let k = rw f at h in
        let rest = All-insert_by_back P goes_first x ys k.1 in (rest.0, (k.0, rest.1))
  ]

  pub All-sort_by_back {κ} :
      (P : A → Type κ) (goes_first : A → A → Bool) (xs : List A)
      → All P (sort_by goes_first xs)
      → All P xs
  All-sort_by_back P goes_first [] h = tt
  All-sort_by_back P goes_first (x ∷ xs) h =
      let rest = All-insert_by_back P goes_first x (sort_by goes_first xs) h in
      (rest.0, All-sort_by_back P goes_first xs rest.1)

  any-insert_by :
      (q : A → Bool) (goes_first : A → A → Bool) (x : A) (xs : List A)
      → any q (insert_by goes_first x xs) ≡ any q (x ∷ xs)
  any-insert_by q goes_first x [] = refl
  any-insert_by q goes_first x (y ∷ ys) = ground (arith, any-insert_by q goes_first x ys)

  pub any-sort_by :
      (q : A → Bool) (goes_first : A → A → Bool) (xs : List A)
      → any q (sort_by goes_first xs) ≡ any q xs
  any-sort_by q goes_first [] = refl
  any-sort_by q goes_first (x ∷ xs) =
      ground
        (arith, any-insert_by q goes_first x (sort_by goes_first xs), any-sort_by q goes_first xs)

  -- Each row goes before all that follow.
  abbrev pub IsSorted : (A → A → Bool) → List A → Type 0
  IsSorted goes_first [] = Unit
  IsSorted goes_first (x ∷ xs) = All (λ y. goes_first x y ≡ true) xs × IsSorted goes_first xs

  module _ (goes_first : A → A → Bool)
      (total : (x y : A) → goes_first x y ≡ false → goes_first y x ≡ true)
      (transitive : (x y z : A)
        → goes_first x y ≡ true
        → goes_first y z ≡ true
        → goes_first x z ≡ true) where
    all_after :
        (x y : A) (ys : List A)
        → goes_first x y ≡ true
        → All (λ z. goes_first y z ≡ true) ys
        → All (λ z. goes_first x z ≡ true) ys
    all_after x y [] e h = tt
    all_after x y (z ∷ zs) e h = (transitive x y z e h.0, all_after x y zs e h.1)

    insert_by-IsSorted :
        (x : A) (xs : List A)
        → IsSorted goes_first xs
        → IsSorted goes_first (insert_by goes_first x xs)
    insert_by-IsSorted x [] h = (tt, tt)
    insert_by-IsSorted x (y ∷ ys) h = elim (Bool-cases (goes_first x y)) [
      | inl t ↦ rw t ((t, all_after x y ys t h.0), h)
      | inr f ↦ rw f (
        All-insert_by (λ z. goes_first y z ≡ true) goes_first x ys (total x y f) h.0,
        insert_by-IsSorted x ys h.1,
      )
    ]

    pub sort_by-IsSorted : (xs : List A) → IsSorted goes_first (sort_by goes_first xs)
    sort_by-IsSorted [] = tt
    sort_by-IsSorted (x ∷ xs) = insert_by-IsSorted x (sort_by goes_first xs) (sort_by-IsSorted xs)

    none_before :
        (x : A) (xs : List A)
        → All (λ y. goes_first x y ≡ true) xs
        → count_rows (λ y. not (goes_first x y)) xs ≡ 0
    none_before x [] h = refl
    none_before x (y ∷ ys) h = ground (arith, h.0, none_before x ys h.1)

    not_before_itself : (x : A) → goes_first x x ≡ true
    not_before_itself x = elim (Bool-cases (goes_first x x)) [ inl t ↦ t | inr f ↦ total x x f ]

    few-cons :
        (x : A) (xs ys : List A) (n : ℕ)
        → All (λ z. count_rows (λ y. not (goes_first z y)) xs < n) ys
        → All (λ z. count_rows (λ y. not (goes_first z y)) (x ∷ xs) < suc n) ys
    few-cons x xs [] n h = tt
    few-cons x xs (y ∷ ys) n h = (ground (arith, h.0), few-cons x xs ys n h.1)

    -- Of a sorted list, fewer than n rows go before one of the first n.
    pub take-few :
        (n : ℕ) (xs : List A)
        → IsSorted goes_first xs
        → All (λ x. count_rows (λ y. not (goes_first x y)) xs < n) (take n xs)
    take-few zero xs h = tt
    take-few (suc n) [] h = tt
    take-few (suc n) (x ∷ xs) h = (
      ground (arith, none_before x xs h.0, not_before_itself x),
      few-cons x xs (take n xs) n (take-few n xs h.1),
    )
