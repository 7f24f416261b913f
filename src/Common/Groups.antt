-- ===== src/Common/Groups.antt =====
-- Grouping in the order of arrival, as by `out.setdefault(key, []).append(x)` on a dictionary of
-- lists.
use mathlib.Core.Path.{◌≡◌, refl, sym, ◌∙◌}
use mathlib.Core.Logic.{◌↔◌, inl, inr}
use mathlib.Core.Bool.{Bool, true, false}
use mathlib.Core.List.{List, [], ◌∷◌, ◌++◌, append_assoc, append-nil}
use native.Mathlib.Omega.{arith}
use vodum.Common.Tests.{if◌then◌else◌, Bool-cases}
use vodum.Common.Lists.{All, where_rows}

-- A type of keys with a Boolean equality.
pub record Key {ℓ} (K : Type ℓ) : Type ℓ where
  pub same : K → K → Bool
  pub same_iff : (a b : K) → (same a b ≡ true) ↔ (a ≡ b)

module _ {ℓ κ} {K : Type ℓ} {A : Type κ} ⦃e : Key K⦄ where
  -- `groups.setdefault(k, []).append(x)`
  unfoldable pub add_group : K → A → List (K × List A) → List (K × List A)
  add_group k x [] = (k, x ∷ []) ∷ []
  add_group k x ((j, xs) ∷ groups) =
      if e.same j k then (j, xs ++ x ∷ []) ∷ groups else (j, xs) ∷ add_group k x groups

  pub group_into : (A → K) → List (K × List A) → List A → List (K × List A)
  unfolding add_group
  group_into key groups [] = groups
  group_into key groups (x ∷ xs) = group_into key (add_group (key x) x groups) xs

  unfoldable pub group_by : (A → K) → List A → List (K × List A)
  unfolding group_into
  group_by key xs = group_into key [] xs

  group_of : K → List (K × List A) → List A
  group_of k [] = []
  group_of k ((j, xs) ∷ groups) = if e.same j k then xs else group_of k groups

  group_of-add :
      (k j : K) (x : A) (groups : List (K × List A))
      → group_of k (add_group j x groups) ≡ group_of k groups ++ (if e.same j k then x ∷ [] else [])
  unfolding add_group group_of
  group_of-add k j x [] = ground arith
  group_of-add k j x ((i, xs) ∷ groups) = elim (Bool-cases (e.same i j)) [
    | inl t ↦ rw t (
        ground
          (arith, e.same_iff i j, e.same_iff i k, e.same_iff j k, append-nil (group_of k groups)))
    | inr f ↦ rw f (
        ground (
          arith,
          e.same_iff i j,
          e.same_iff i k,
          e.same_iff j k,
          group_of-add k j x groups,
          append-nil xs,
        ))
  ]

  group_of-into :
      (key : A → K) (k : K) (xs : List A) (groups : List (K × List A))
      → group_of k (group_into key groups xs)
        ≡ group_of k groups ++ where_rows (λ x. e.same (key x) k) xs
  unfolding group_into
  group_of-into key k [] groups = sym (append-nil (group_of k groups))
  group_of-into key k (x ∷ xs) groups = ground (
    arith,
    group_of-into key k xs (add_group (key x) x groups),
    group_of-add k (key x) x groups,
    append_assoc (group_of k groups) (x ∷ []) (where_rows (λ y. e.same (key y) k) xs),
    append-nil (group_of k groups),
  )

  abbrev AreApart : List (K × List A) → Type 0
  AreApart [] = Unit {0}
  AreApart ((j, xs) ∷ groups) =
      All (λ (g : K × List A). e.same j g.0 ≡ false) groups × AreApart groups

  All-add_group :
      (j k : K) (x : A)
      → e.same j k ≡ false
      → (groups : List (K × List A)) → All (λ (g : K × List A). e.same j g.0 ≡ false) groups
      → All (λ (g : K × List A). e.same j g.0 ≡ false) (add_group k x groups)
  unfolding add_group
  All-add_group j k x f [] h = (f, tt)
  All-add_group j k x f ((i, xs) ∷ groups) h = elim (Bool-cases (e.same i k)) [
    | inl t ↦ rw t h
    | inr u ↦ rw u (h.0, All-add_group j k x f groups h.1)
  ]

  AreApart-add :
      (k : K) (x : A) (groups : List (K × List A))
      → AreApart groups
      → AreApart (add_group k x groups)
  unfolding add_group
  AreApart-add k x [] h = (tt, tt)
  AreApart-add k x ((j, xs) ∷ groups) h = elim (Bool-cases (e.same j k)) [
    | inl t ↦ rw t h
    | inr f ↦ rw f (All-add_group j k x f groups h.0, AreApart-add k x groups h.1)
  ]

  AreApart-into :
      (key : A → K) (xs : List A) (groups : List (K × List A))
      → AreApart groups
      → AreApart (group_into key groups xs)
  unfolding group_into
  AreApart-into key [] groups h = h
  AreApart-into key (x ∷ xs) groups h =
      AreApart-into key xs (add_group (key x) x groups) (AreApart-add (key x) x groups h)

  -- Groups that lie apart are each found under its key.
  skip_groups :
      (j : K) (xs : List A) (groups gs : List (K × List A))
      → All (λ (g : K × List A). e.same j g.0 ≡ false) gs
      → All (λ (g : K × List A). group_of g.0 groups ≡ g.1) gs
      → All (λ (g : K × List A). group_of g.0 ((j, xs) ∷ groups) ≡ g.1) gs
  unfolding group_of
  skip_groups j xs groups [] apart h = tt
  skip_groups j xs groups ((k, ys) ∷ gs) apart h =
      (rw apart.0 h.0, skip_groups j xs groups gs apart.1 h.1)

  group_of-own :
      (groups : List (K × List A))
      → AreApart groups
      → All (λ (g : K × List A). group_of g.0 groups ≡ g.1) groups
  unfolding group_of
  group_of-own [] h = tt
  group_of-own ((j, xs) ∷ groups) h = (
    rw ((e.same_iff j j).1 refl) refl,
    skip_groups j xs groups groups h.0 (group_of-own groups h.1),
  )

  -- Each group is what the list holds under its key.
  abbrev pub AreGroups : (A → K) → List A → List (K × List A) → Type κ
  AreGroups key xs groups =
      All (λ (g : K × List A). g.1 ≡ where_rows (λ x. e.same (key x) g.0) xs) groups

  read_groups :
      (key : A → K) (xs : List A) (groups gs : List (K × List A))
      → ((k : K) → group_of k groups ≡ where_rows (λ x. e.same (key x) k) xs)
      → All (λ (g : K × List A). group_of g.0 groups ≡ g.1) gs
      → AreGroups key xs gs
  read_groups key xs groups [] all h = tt
  read_groups key xs groups ((k, ys) ∷ gs) all h =
      (sym h.0 ∙ all k, read_groups key xs groups gs all h.1)

  pub group_by-AreGroups : (key : A → K) (xs : List A) → AreGroups key xs (group_by key xs)
  unfolding group_by group_of
  group_by-AreGroups key xs =
      read_groups key xs (group_into key [] xs) (group_into key [] xs)
        (λ k. group_of-into key k xs [])
        (group_of-own (group_into key [] xs) (AreApart-into key xs [] tt))
