-- ===== src/Common/Lists.antt =====
-- Lists measured by native numbers, and the three table operations of SQL: the rows that fit a
-- condition, the first of them, and an update of them.
use Prim.Native.Nat.{ℕ, zero, suc, ◌+◌, ◌≤◌}
use mathlib.Core.Path.{◌≡◌, refl, ap₂, subst}
use mathlib.Core.Bool.{Bool, true, false, ◌||◌}
use mathlib.Core.Logic.{◌↔◌, inl, inr}
use mathlib.Core.Option.{Option, none, some}
use mathlib.Core.List.{List, [], ◌∷◌, ◌++◌, map}
use native.Mathlib.Omega.{arith}
use vodum.Common.Tests.{if◌then◌else◌, Bool-cases}

module _ {ℓ} {A : Type ℓ} where
  abbrev pub length : List A → ℕ
  length [] = 0
  length (x ∷ xs) = suc (length xs)

  abbrev pub All {κ} : (A → Type κ) → List A → Type κ
  All P [] = Unit
  All P (x ∷ xs) = P x × All P xs

  -- Python's `any`.
  abbrev pub any : (A → Bool) → List A → Bool
  any test [] = false
  any test (x ∷ xs) = test x || any test xs

  -- `xs[:n]`, and `LIMIT n`
  abbrev pub take : ℕ → List A → List A
  take zero xs = []
  take (suc n) [] = []
  take (suc n) (x ∷ xs) = x ∷ take n xs

  -- `SELECT … WHERE p`
  abbrev pub where_rows : (A → Bool) → List A → List A
  where_rows p [] = []
  where_rows p (x ∷ xs) = if p x then x ∷ where_rows p xs else where_rows p xs

  -- `SELECT … WHERE p` read by `query_one`
  abbrev pub find_row : (A → Bool) → List A → Option A
  find_row p [] = none
  find_row p (x ∷ xs) = if p x then some x else find_row p xs

  -- `UPDATE … SET f WHERE p`
  abbrev pub update_rows : (A → Bool) → (A → A) → List A → List A
  update_rows p f [] = []
  update_rows p f (x ∷ xs) = (if p x then f x else x) ∷ update_rows p f xs

  -- `DELETE … WHERE p`
  abbrev pub delete_rows : (A → Bool) → List A → List A
  delete_rows p [] = []
  delete_rows p (x ∷ xs) = if p x then delete_rows p xs else x ∷ delete_rows p xs

  -- `SELECT COUNT(*) … WHERE p`
  abbrev pub count_rows : (A → Bool) → List A → ℕ
  count_rows p [] = 0
  count_rows p (x ∷ xs) = (if p x then 1 else 0) + count_rows p xs

  pub length-append : (xs ys : List A) → length (xs ++ ys) ≡ length xs + length ys
  length-append [] ys = omega arith
  length-append (x ∷ xs) ys = omega (arith, length-append xs ys)

  -- Where the updated rows keep a property, all rows do.
  pub All-update_rows {κ} :
      (P : A → Type κ) (p : A → Bool) (f : A → A)
      → ((x : A) → P x → P (f x))
      → (xs : List A) → All P xs
      → All P (update_rows p f xs)
  All-update_rows P p f keep [] h = h
  All-update_rows P p f keep (x ∷ xs) h = (choose (p x), All-update_rows P p f keep xs h.1)
    where
      choose : (b : Bool) → P (if b then f x else x)
      choose true = keep x h.0
      choose false = h.0

  -- What an update leaves alone in each row, it leaves alone in the column.
  pub map-update_rows {κ} :
      {B : Type κ} (g : A → B) (p : A → Bool) (f : A → A)
      → ((x : A) → g (f x) ≡ g x)
      → (xs : List A) → map g (update_rows p f xs) ≡ map g xs
  map-update_rows g p f same [] = refl
  map-update_rows g p f same (x ∷ xs) = ap₂ ◌∷◌ (choose (p x)) (map-update_rows g p f same xs)
    where
      choose : (b : Bool) → g (if b then f x else x) ≡ g x
      choose true = same x
      choose false = refl

  -- A row that is found fits the condition.
  pub find_row_fits : (p : A → Bool) (xs : List A) (x : A) → find_row p xs ≡ some x → p x ≡ true
  find_row_fits p [] x e = cc
  find_row_fits p (y ∷ ys) x e = ground (arith, find_row_fits p ys x)

  -- It holds what all rows hold.
  pub find_row-All {κ} :
      (P : A → Type κ) (p : A → Bool) (xs : List A) (x : A)
      → All P xs
      → find_row p xs ≡ some x
      → P x
  find_row-All P p [] x h e = absurd (cc)
  find_row-All P p (y ∷ ys) x h e = elim (Bool-cases (p y)) [
    | inl t ↦ let same : y ≡ x = ground arith in subst P same h.0
    | inr f ↦ find_row-All P p ys x h.1 (rw f at e)
  ]

  -- No row is found exactly if none fits.
  pub find_row-none : (p : A → Bool) (xs : List A) → (find_row p xs ≡ none) ↔ (count_rows p xs ≡ 0)
  find_row-none p [] = ground arith
  find_row-none p (y ∷ ys) = ground (arith, find_row-none p ys)

  -- An update that changes nothing the second time.
  pub update_rows_idem :
      (p : A → Bool) (f : A → A)
      → ((x : A) → f (f x) ≡ f x)
      → (xs : List A) → update_rows p f (update_rows p f xs) ≡ update_rows p f xs
  update_rows_idem p f idem [] = refl
  update_rows_idem p f idem (x ∷ xs) = ap₂ ◌∷◌ head (update_rows_idem p f idem xs)
    where
      head :
          (if p (if p x then f x else x)
            then f (if p x then f x else x)
            else (if p x then f x else x))
          ≡ (if p x then f x else x)
      head = elim (Bool-cases (p x)) [
        | inl t ↦ rw t (elim (Bool-cases (p (f x))) [ inl u ↦ rw u (idem x) | inr u ↦ rw u refl ])
        | inr n ↦ rw (n, n) refl
      ]

  pub count_rows-append :
      (q : A → Bool) (xs ys : List A) → count_rows q (xs ++ ys) ≡ count_rows q xs + count_rows q ys
  count_rows-append q [] ys = omega arith
  count_rows-append q (x ∷ xs) ys = omega (arith, count_rows-append q xs ys)

  -- An update that makes no row fit `q` which did not fit it.
  pub count_rows-update_le :
      (q p : A → Bool) (f : A → A)
      → ((x : A) → p x ≡ true → q (f x) ≡ true → q x ≡ true)
      → (xs : List A) → count_rows q (update_rows p f xs) ≤ count_rows q xs
  count_rows-update_le q p f keep [] = omega arith
  count_rows-update_le q p f keep (x ∷ xs) =
      ground (arith, keep x, count_rows-update_le q p f keep xs)

  pub count_rows-delete_le :
      (q p : A → Bool) (xs : List A) → count_rows q (delete_rows p xs) ≤ count_rows q xs
  count_rows-delete_le q p [] = omega arith
  count_rows-delete_le q p (x ∷ xs) = ground (arith, count_rows-delete_le q p xs)

  -- An update of the rows that fit `q`, to rows that do not, leaves none.
  pub count_rows-update_zero :
      (q : A → Bool) (f : A → A)
      → ((x : A) → q (f x) ≡ false)
      → (xs : List A) → count_rows q (update_rows q f xs) ≡ 0
  count_rows-update_zero q f out [] = refl
  count_rows-update_zero q f out (x ∷ xs) = ground (arith, out x, count_rows-update_zero q f out xs)

  -- Rows that no update or deletion touches.
  pub where_rows-update :
      (q p : A → Bool) (f : A → A)
      → ((x : A) → p x ≡ true → q x ≡ false)
      → ((x : A) → p x ≡ true → q (f x) ≡ false)
      → (xs : List A) → where_rows q (update_rows p f xs) ≡ where_rows q xs
  where_rows-update q p f before after [] = refl
  where_rows-update q p f before after (x ∷ xs) =
      ground (arith, before x, after x, where_rows-update q p f before after xs)

  pub where_rows-delete :
      (q p : A → Bool)
      → ((x : A) → p x ≡ true → q x ≡ false)
      → (xs : List A) → where_rows q (delete_rows p xs) ≡ where_rows q xs
  where_rows-delete q p out [] = refl
  where_rows-delete q p out (x ∷ xs) = ground (arith, out x, where_rows-delete q p out xs)

  pub where_rows-append :
      (q : A → Bool) (xs ys : List A) → where_rows q (xs ++ ys) ≡ where_rows q xs ++ where_rows q ys
  where_rows-append q [] ys = refl
  where_rows-append q (x ∷ xs) ys = ground (arith, where_rows-append q xs ys)

  pub All-append {κ} : (P : A → Type κ) (xs ys : List A) → All P xs → All P ys → All P (xs ++ ys)
  All-append P [] ys h k = k
  All-append P (x ∷ xs) ys h k = (h.0, All-append P xs ys h.1 k)

  -- The rows that fit a condition keep what all rows have, and have the condition.
  pub All-where_rows {κ} :
      (P : A → Type κ) (q : A → Bool) (xs : List A) → All P xs → All P (where_rows q xs)
  All-where_rows P q [] h = tt
  All-where_rows P q (x ∷ xs) h = elim (Bool-cases (q x)) [
    | inl t ↦ rw t (h.0, All-where_rows P q xs h.1)
    | inr f ↦ rw f (All-where_rows P q xs h.1)
  ]

  pub where_rows-fit : (q : A → Bool) (xs : List A) → All (λ x. q x ≡ true) (where_rows q xs)
  where_rows-fit q [] = tt
  where_rows-fit q (x ∷ xs) = elim (Bool-cases (q x)) [
    | inl t ↦ rw t (t, where_rows-fit q xs)
    | inr f ↦ rw f (where_rows-fit q xs)
  ]

  -- What is appended is found if nothing before it is.
  pub find_row-append_none :
      (p : A → Bool) (xs ys : List A) → find_row p xs ≡ none → find_row p (xs ++ ys) ≡ find_row p ys
  find_row-append_none p [] ys h = refl
  find_row-append_none p (x ∷ xs) ys h = ground (arith, find_row-append_none p xs ys)

  pub find_row-append_other :
      (p : A → Bool) (xs : List A) (y : A) → p y ≡ false → find_row p (xs ++ y ∷ []) ≡ find_row p xs
  find_row-append_other p [] y h = ground arith
  find_row-append_other p (x ∷ xs) y h = ground (arith, find_row-append_other p xs y)
