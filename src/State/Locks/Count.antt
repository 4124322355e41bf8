-- ===== src/State/Locks/Count.antt =====
-- How many goroutines use or hold an entry.
use lottery.Prelude.{
  ℕ, zero, suc, ◌+◌, ◌≤◌, ◌≡◌, refl, Bool, true, false, none, some, List, [], ◌∷◌, ◌++◌, arith,
  ◌==◌, All,
}
use lottery.Prelude.Text.{Text, text_eq, text_eq_iff}
use lottery.Prelude.Dict.{Dict, lookup, insert, erase, lookup-insert, lookup-erase_ne}
use lottery.State.Locks.{Pc, outside, waiting, holding, leaving, all_outside}

abbrev pub unit_if : Bool → ℕ
unit_if true = 1
unit_if false = 0

abbrev pub uses : ℕ → Pc → ℕ
uses e outside = 0
uses e (waiting key d) = unit_if (d == e)
uses e (holding key d) = unit_if (d == e)
uses e (leaving key d) = unit_if (d == e)

abbrev pub holds : ℕ → Pc → ℕ
holds e outside = 0
holds e (waiting key d) = 0
holds e (holding key d) = unit_if (d == e)
holds e (leaving key d) = 0

-- Whether the lock of a key is held.
abbrev pub holds_key : Text → Pc → ℕ
holds_key key outside = 0
holds_key key (waiting k d) = 0
holds_key key (holding k d) = unit_if (text_eq k key)
holds_key key (leaving k d) = 0

pub sum_by : (Pc → ℕ) → List Pc → ℕ
sum_by weight [] = 0
sum_by weight (p ∷ threads) = weight p + sum_by weight threads

pub sum_by-append :
    (weight : Pc → ℕ) (before after : List Pc)
    → sum_by weight (before ++ after) ≡ sum_by weight before + sum_by weight after
unfolding sum_by
sum_by-append weight [] after = omega arith
sum_by-append weight (p ∷ before) after = omega (arith, sum_by-append weight before after)

-- The weight of all when one goroutine stands between the others.
pub sum_by-between :
    (weight : Pc → ℕ) (before after : List Pc) (p : Pc)
    → sum_by weight (before ++ p ∷ after) ≡ weight p + (sum_by weight before + sum_by weight after)
unfolding sum_by
sum_by-between weight before after p = omega (arith, sum_by-append weight before (p ∷ after))

pub sum_by-zero :
    (weight : Pc → ℕ) (threads : List Pc)
    → sum_by weight threads ≡ 0
    → All (λ p. weight p ≡ 0) threads
unfolding sum_by
sum_by-zero weight [] h = tt
sum_by-zero weight (p ∷ threads) h = (omega arith, sum_by-zero weight threads (omega arith))

-- A goroutine that is not outside has its entry in the table, under its key.
abbrev pub IsRegistered : Dict ℕ → Pc → Type 0
IsRegistered table outside = Unit
IsRegistered table (waiting key e) = lookup key table ≡ some e
IsRegistered table (holding key e) = lookup key table ≡ some e
IsRegistered table (leaving key e) = lookup key table ≡ some e

-- The goroutines that hold the lock of a key hold its entry.
pub holds_key-le :
    (key : Text) (e : ℕ) (table : Dict ℕ) (threads : List Pc)
    → lookup key table ≡ some e
    → All (IsRegistered table) threads
    → sum_by (holds_key key) threads ≤ sum_by (holds e) threads
unfolding sum_by
holds_key-le key e table [] found h = omega arith
holds_key-le key e table (outside ∷ threads) found h =
    omega (arith, holds_key-le key e table threads found h.1)
holds_key-le key e table (waiting k d ∷ threads) found h =
    omega (arith, holds_key-le key e table threads found h.1)
holds_key-le key e table (leaving k d ∷ threads) found h =
    omega (arith, holds_key-le key e table threads found h.1)
holds_key-le key e table (holding k d ∷ threads) found h =
    ground (arith, text_eq_iff k key, holds_key-le key e table threads found h.1)

-- No goroutine holds the lock of a key that is not in the table.
pub holds_key-missing :
    (key : Text) (table : Dict ℕ) (threads : List Pc)
    → lookup key table ≡ none
    → All (IsRegistered table) threads
    → sum_by (holds_key key) threads ≡ 0
unfolding sum_by
holds_key-missing key table [] missing h = refl
holds_key-missing key table (outside ∷ threads) missing h =
    omega (arith, holds_key-missing key table threads missing h.1)
holds_key-missing key table (waiting k d ∷ threads) missing h =
    omega (arith, holds_key-missing key table threads missing h.1)
holds_key-missing key table (leaving k d ∷ threads) missing h =
    omega (arith, holds_key-missing key table threads missing h.1)
holds_key-missing key table (holding k d ∷ threads) missing h =
    ground (arith, text_eq_iff k key, holds_key-missing key table threads missing h.1)

pub holds-le-uses : (e : ℕ) (threads : List Pc) → sum_by (holds e) threads ≤ sum_by (uses e) threads
unfolding sum_by
holds-le-uses e [] = omega arith
holds-le-uses e (outside ∷ threads) = omega (arith, holds-le-uses e threads)
holds-le-uses e (waiting key d ∷ threads) = omega (arith, holds-le-uses e threads)
holds-le-uses e (holding key d ∷ threads) = omega (arith, holds-le-uses e threads)
holds-le-uses e (leaving key d ∷ threads) = omega (arith, holds-le-uses e threads)

-- A new entry leaves the others registered.
pub IsRegistered-insert :
    (key : Text) (e : ℕ) (table : Dict ℕ) (p : Pc)
    → lookup key table ≡ none
    → IsRegistered table p
    → IsRegistered (insert key e table) p
IsRegistered-insert key e table outside missing h = tt
IsRegistered-insert key e table (waiting k d) missing h =
    ground (arith, lookup-insert key k e table, text_eq_iff key k)
IsRegistered-insert key e table (holding k d) missing h =
    ground (arith, lookup-insert key k e table, text_eq_iff key k)
IsRegistered-insert key e table (leaving k d) missing h =
    ground (arith, lookup-insert key k e table, text_eq_iff key k)

-- Taking an entry out leaves those registered that do not use it.
pub IsRegistered-erase :
    (key : Text) (e : ℕ) (table : Dict ℕ) (p : Pc)
    → lookup key table ≡ some e
    → IsRegistered table p × (uses e p ≡ 0)
    → IsRegistered (erase key table) p
IsRegistered-erase key e table outside found h = tt
IsRegistered-erase key e table (waiting k d) found h =
    ground (arith, lookup-erase_ne key k table, text_eq_iff key k)
IsRegistered-erase key e table (holding k d) found h =
    ground (arith, lookup-erase_ne key k table, text_eq_iff key k)
IsRegistered-erase key e table (leaving k d) found h =
    ground (arith, lookup-erase_ne key k table, text_eq_iff key k)

-- The goroutines that hold an entry hold the lock of its key.
pub holds-le-key :
    (key : Text) (e : ℕ) (table : Dict ℕ) (threads : List Pc)
    → ((other : Text) → lookup other table ≡ some e → other ≡ key)
    → All (IsRegistered table) threads
    → sum_by (holds e) threads ≤ sum_by (holds_key key) threads
unfolding sum_by
holds-le-key key e table [] only h = omega arith
holds-le-key key e table (outside ∷ threads) only h =
    omega (arith, holds-le-key key e table threads only h.1)
holds-le-key key e table (waiting k d ∷ threads) only h =
    omega (arith, holds-le-key key e table threads only h.1)
holds-le-key key e table (leaving k d ∷ threads) only h =
    omega (arith, holds-le-key key e table threads only h.1)
holds-le-key key e table (holding k d ∷ threads) only h =
    ground (arith, text_eq_iff k key, only k, holds-le-key key e table threads only h.1)

pub unused-count :
    (e : ℕ) (threads : List Pc) → All (λ p. p ≡ outside) threads → sum_by (uses e) threads ≡ 0
unfolding sum_by
unused-count e [] h = refl
unused-count e (p ∷ threads) h = rw h.0 (omega (arith, unused-count e threads h.1))

pub outside-count :
    (weight : Pc → ℕ) (n : ℕ) → weight outside ≡ 0 → sum_by weight (all_outside n) ≡ 0
unfolding sum_by
outside-count weight zero h = refl
outside-count weight (suc n) h = omega (arith, h, outside-count weight n h)
