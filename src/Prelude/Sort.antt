-- ===== src/Prelude/Sort.antt =====
-- sort.Slice on a strict order, as insertion sort. Where two entries are neither before the other Go
-- leaves their order open, and this is one of the orders that it may give.
use Prim.Native.Nat.{suc}
use mathlib.Core.Path.{◌≡◌, refl, ◌∙◌, ap}
use mathlib.Core.Logic.{inl, inr}
use mathlib.Core.Bool.{Bool, false}
use mathlib.Core.List.{List, [], ◌∷◌}
use native.Mathlib.Omega.{arith}
use lottery.Prelude.Tests.{if◌then◌else◌, Bool-cases}
use lottery.Prelude.Lists.{All, length}

module _ {ℓ} {A : Type ℓ} (less : A → A → Bool) where
  unfoldable pub insert_sorted : A → List A → List A
  insert_sorted x [] = x ∷ []
  insert_sorted x (y ∷ ys) = if less y x then y ∷ insert_sorted x ys else x ∷ y ∷ ys

  unfoldable pub sort_by : List A → List A
  unfolding insert_sorted
  sort_by [] = []
  sort_by (x ∷ xs) = insert_sorted x (sort_by xs)

  -- No entry stands behind one that it has to precede.
  unfoldable pub IsSorted : List A → Type 0
  IsSorted [] = Unit
  IsSorted (x ∷ xs) = All (λ y. less y x ≡ false) xs × IsSorted xs

-- A relation between every two entries.
abbrev pub Pairwise {ℓ κ} : {A : Type ℓ} → (A → A → Type κ) → List A → Type κ
Pairwise R [] = Unit
Pairwise R (x ∷ xs) = All (R x) xs × Pairwise R xs

module _ {ℓ} {A : Type ℓ} (less : A → A → Bool) where
  insert_sorted-All {κ} :
      (P : A → Type κ) (x : A) (xs : List A) → P x → All P xs → All P (insert_sorted less x xs)
  unfolding insert_sorted
  insert_sorted-All P x [] h k = (h, tt)
  insert_sorted-All P x (y ∷ ys) h k = elim (Bool-cases (less y x)) [
    | inl e ↦ rw e (k.0, insert_sorted-All P x ys h k.1)
    | inr e ↦ rw e (h, k)
  ]

  -- Sorting keeps what holds of all entries.
  pub sort_by-All {κ} : (P : A → Type κ) (xs : List A) → All P xs → All P (sort_by less xs)
  unfolding sort_by
  sort_by-All P [] h = tt
  sort_by-All P (x ∷ xs) h = insert_sorted-All P x (sort_by less xs) h.0 (sort_by-All P xs h.1)

  insert_sorted-Pairwise {κ} :
      (R : A → A → Type κ) (x : A) (xs : List A)
      → ((a b : A) → R a b → R b a)
      → All (R x) xs
      → Pairwise R xs
      → Pairwise R (insert_sorted less x xs)
  unfolding insert_sorted
  insert_sorted-Pairwise R x [] sym h k = (tt, tt)
  insert_sorted-Pairwise R x (y ∷ ys) sym h k = elim (Bool-cases (less y x)) [
    | inl e ↦
        rw e (
          insert_sorted-All (R y) x ys (sym x y h.0) k.0,
          insert_sorted-Pairwise R x ys sym h.1 k.1,
        )
    | inr e ↦ rw e (h, k)
  ]

  -- Sorting keeps a symmetric relation between every two entries.
  pub sort_by-Pairwise {κ} :
      (R : A → A → Type κ) (xs : List A)
      → ((a b : A) → R a b → R b a)
      → Pairwise R xs
      → Pairwise R (sort_by less xs)
  unfolding sort_by
  sort_by-Pairwise R [] sym h = tt
  sort_by-Pairwise R (x ∷ xs) sym h =
      insert_sorted-Pairwise R x (sort_by less xs) sym (sort_by-All (R x) xs h.0)
        (sort_by-Pairwise R xs sym h.1)

  length-insert_sorted : (x : A) (xs : List A) → length (insert_sorted less x xs) ≡ suc (length xs)
  unfolding insert_sorted
  length-insert_sorted x [] = refl
  length-insert_sorted x (y ∷ ys) = ground (arith, length-insert_sorted x ys)

  pub length-sort_by : (xs : List A) → length (sort_by less xs) ≡ length xs
  unfolding sort_by
  length-sort_by [] = refl
  length-sort_by (x ∷ xs) = length-insert_sorted x (sort_by less xs) ∙ ap suc (length-sort_by xs)
