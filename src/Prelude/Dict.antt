-- ===== src/Prelude/Dict.antt =====
-- Go maps keyed by strings, as association lists in which a key is written in its place. A new key
-- goes to the end.
use mathlib.Core.Path.{◌≡◌, refl}
use mathlib.Core.Bool.{Bool, true, false}
use mathlib.Core.Option.{Option, none, some}
use mathlib.Core.List.{List, [], ◌∷◌}
use native.Mathlib.Omega.{arith}
use lottery.Prelude.Tests.{if◌then◌else◌}
use lottery.Prelude.Text.{Text, text_eq, text_eq_iff, text_eq_refl}

abbrev pub Dict {ℓ} : Type ℓ → Type ℓ
Dict V = List (Text × V)

module _ {ℓ} {V : Type ℓ} where
  unfoldable pub lookup : Text → Dict V → Option V
  lookup k [] = none
  lookup k ((j, v) ∷ d) = if text_eq j k then some v else lookup k d

  unfoldable pub insert : Text → V → Dict V → Dict V
  insert k v [] = (k, v) ∷ []
  insert k v ((j, w) ∷ d) = if text_eq j k then (j, v) ∷ d else (j, w) ∷ insert k v d

  unfoldable pub erase : Text → Dict V → Dict V
  erase k [] = []
  erase k ((j, w) ∷ d) = if text_eq j k then d else (j, w) ∷ erase k d

  -- The loop that deletes from a map while it ranges over it: the entries that pass the test stay.
  unfoldable pub keep_entries : (Text → V → Bool) → Dict V → Dict V
  keep_entries p [] = []
  keep_entries p ((j, w) ∷ d) = if p j w then (j, w) ∷ keep_entries p d else keep_entries p d

  -- A predicate on all entries.
  abbrev pub AllEntries {κ} : (Text → V → Type κ) → Dict V → Type κ
  AllEntries P [] = Unit
  AllEntries P ((j, w) ∷ d) = P j w × AllEntries P d

  -- No key stands twice.
  unfoldable pub HasUniqueKeys : Dict V → Type ℓ
  HasUniqueKeys [] = Unit
  HasUniqueKeys ((j, w) ∷ d) = (lookup j d ≡ none) × HasUniqueKeys d

  pub lookup-insert :
      (k j : Text) (v : V) (d : Dict V)
      → lookup j (insert k v d) ≡ (if text_eq k j then some v else lookup j d)
  unfolding lookup insert
  lookup-insert k j v [] = refl
  lookup-insert k j v ((i, w) ∷ d) =
      ground (arith, text_eq_iff k j, text_eq_iff i k, text_eq_iff i j, lookup-insert k j v d)

  pub lookup-erase_ne :
      (k j : Text) (d : Dict V) → text_eq k j ≡ false → lookup j (erase k d) ≡ lookup j d
  unfolding lookup erase
  lookup-erase_ne k j [] h = refl
  lookup-erase_ne k j ((i, w) ∷ d) h =
      ground (arith, text_eq_iff k j, text_eq_iff i k, text_eq_iff i j, lookup-erase_ne k j d h)

  pub lookup-erase_self : (k : Text) (d : Dict V) → HasUniqueKeys d → lookup k (erase k d) ≡ none
  unfolding lookup erase HasUniqueKeys
  lookup-erase_self k [] h = refl
  lookup-erase_self k ((i, w) ∷ d) h = ground (arith, text_eq_iff i k, lookup-erase_self k d h.1)

  -- Writing the old value back undoes a write.
  pub insert_back :
      (k : Text) (v old : V) (d : Dict V) → lookup k d ≡ some old → insert k old (insert k v d) ≡ d
  unfolding lookup insert
  insert_back k v old [] h = ground arith
  insert_back k v old ((i, w) ∷ d) h = ground (arith, insert_back k v old d)

  -- Deleting a new key undoes its insertion.
  pub erase_back : (k : Text) (v : V) (d : Dict V) → lookup k d ≡ none → erase k (insert k v d) ≡ d
  unfolding lookup insert erase
  erase_back k v [] h = ground (arith, text_eq_refl k)
  erase_back k v ((i, w) ∷ d) h = ground (arith, erase_back k v d)

  pub insert-HasUniqueKeys :
      (k : Text) (v : V) (d : Dict V) → HasUniqueKeys d → HasUniqueKeys (insert k v d)
  unfolding insert HasUniqueKeys lookup
  insert-HasUniqueKeys k v [] h = (refl, tt)
  insert-HasUniqueKeys k v ((i, w) ∷ d) h = ground (
    arith,
    insert-HasUniqueKeys k v d h.1,
    lookup-insert k i v d,
    text_eq_iff i k,
    text_eq_iff k i,
  )

  pub erase-HasUniqueKeys : (k : Text) (d : Dict V) → HasUniqueKeys d → HasUniqueKeys (erase k d)
  unfolding erase HasUniqueKeys lookup
  erase-HasUniqueKeys k [] h = tt
  erase-HasUniqueKeys k ((i, w) ∷ d) h =
      ground (
        arith,
        erase-HasUniqueKeys k d h.1,
        lookup-erase_ne k i d,
        text_eq_iff i k,
        text_eq_iff k i,
      )

  pub keep_entries-AllEntries :
      (p : Text → V → Bool) (d : Dict V) → AllEntries (λ j w. p j w ≡ true) (keep_entries p d)
  unfolding keep_entries
  keep_entries-AllEntries p [] = tt
  keep_entries-AllEntries p ((j, w) ∷ d) = ground (arith, keep_entries-AllEntries p d)

  -- An entry that passes the test is still found.
  pub lookup-keep_entries :
      (p : Text → V → Bool) (k : Text) (v : V) (d : Dict V)
      → lookup k d ≡ some v
      → p k v ≡ true
      → lookup k (keep_entries p d) ≡ some v
  unfolding lookup keep_entries
  lookup-keep_entries p k v [] h passes = ground arith
  lookup-keep_entries p k v ((j, w) ∷ d) h passes =
      ground (arith, text_eq_iff j k, lookup-keep_entries p k v d)

  -- A key all of whose entries pass is looked up as before.
  pub lookup-keep_entries_key :
      (p : Text → V → Bool) (k : Text) (d : Dict V)
      → ((v : V) → p k v ≡ true)
      → lookup k (keep_entries p d) ≡ lookup k d
  unfolding lookup keep_entries
  lookup-keep_entries_key p k [] passes = refl
  lookup-keep_entries_key p k ((j, w) ∷ d) passes =
      ground (arith, text_eq_iff j k, passes w, lookup-keep_entries_key p k d passes)

  -- Deleting a key that is not there changes nothing.
  pub erase_missing : (k : Text) (d : Dict V) → lookup k d ≡ none → erase k d ≡ d
  unfolding lookup erase
  erase_missing k [] h = refl
  erase_missing k ((j, w) ∷ d) h = ground (arith, erase_missing k d)
