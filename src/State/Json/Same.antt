-- ===== src/State/Json/Same.antt =====
-- A raw message that was written and read is the same JSON: compaction gives the same text.
use lottery.Prelude.{
  ℕ, zero, suc, ◌+◌, ◌-◌, Bool, true, false, ◌&&◌, [], ◌∷◌, ◌++◌, ◌≡◌, refl, ap, ◌∙◌, inl, inr,
  Bool-cases, arith,
}
use lottery.Prelude.Text.{Text}
use lottery.State.Json.{
  Place, outside, inside, escaped, next_place, is_outside, is_json_space, html_safe, compact,
  indentation, new_line, spaced, indent, written_data,
}

compact-indentation : (n : ℕ) (s : Text) → compact outside (indentation n ++ s) ≡ compact outside s
unfolding indentation compact next_place
compact-indentation zero s = refl
compact-indentation (suc n) s = compact-indentation n s

compact-indented :
    (n : ℕ) (r s : Text) → compact outside ((indentation n ++ r) ++ s) ≡ compact outside (r ++ s)
unfolding indentation compact next_place
compact-indented zero r s = refl
compact-indented (suc n) r s = compact-indented n r s

-- A byte outside of strings with its spacing counts as the byte alone.
compact-spaced :
    (depth : ℕ) (opened : Bool) (c : ℕ) (s : Text)
    → compact outside ((spaced depth opened c).0 ++ s) ≡ compact outside (c ∷ s)
unfolding spaced compact next_place
compact-spaced depth true c s = ground (
  arith,
  compact-indented (depth + 1) (c ∷ []) s,
  compact-indented (depth + 1) (c ∷ new_line (depth + 1)) s,
  compact-indented (depth + 1) (c ∷ b' ' ∷ []) s,
  compact-indentation (depth + 1) s,
)
compact-spaced depth false c s =
    ground (arith, compact-indented (depth - 1) (c ∷ []) s, compact-indentation depth s)

compact-cons :
    (place : Place) (c : ℕ) (s t : Text)
    → compact (next_place place c) s ≡ compact (next_place place c) t
    → compact place (c ∷ s) ≡ compact place (c ∷ t)
unfolding compact
compact-cons place c s t h = rw h refl

-- Indentation adds nothing but white space outside of strings.
compact-indent :
    (depth : ℕ) (opened : Bool) (place : Place) (s : Text)
    → compact place (indent depth opened place s) ≡ compact place s
unfolding indent
compact-indent depth opened place [] = refl
compact-indent depth opened outside (c ∷ s) =
    let next = spaced depth opened c in
    compact-spaced depth opened c (indent next.1 next.2 (next_place outside c) s)
    ∙ compact-cons outside c _ s (compact-indent next.1 next.2 (next_place outside c) s)
compact-indent depth opened inside (c ∷ s) =
    compact-cons inside c _ s (compact-indent depth false (next_place inside c) s)
compact-indent depth opened escaped (c ∷ s) =
    compact-cons escaped c _ s (compact-indent depth false (next_place escaped c) s)

compact-html_safe :
    (place : Place) (c : ℕ) (s : Text)
    → (is_outside place && is_json_space c) ≡ false
    → compact place (html_safe c ++ s) ≡ html_safe c ++ compact (next_place place c) s
unfolding compact html_safe next_place
compact-html_safe outside c s h = ground arith
compact-html_safe inside c s h = ground arith
compact-html_safe escaped c s h = ground arith

next_place-space :
    (place : Place) (c : ℕ)
    → (is_outside place && is_json_space c) ≡ true
    → next_place place c ≡ place
unfolding next_place
next_place-space outside c h = ground arith
next_place-space inside c h = absurd (ground arith)
next_place-space escaped c h = absurd (ground arith)

compact_idem : (place : Place) (s : Text) → compact place (compact place s) ≡ compact place s
unfolding compact next_place
compact_idem place [] = refl
compact_idem place (c ∷ s) = elim (Bool-cases (is_outside place && is_json_space c)) [
  | inl q ↦ rw q (rw (next_place-space place c q) (compact_idem place s))
  | inr q ↦ rw q (
      compact-html_safe place c (compact (next_place place c) s) q
      ∙ ap (λ t. html_safe c ++ t) (compact_idem (next_place place c) s))
]

-- The raw message that is read back is the one that was written, up to white space and escapes.
pub written_data-compact : (s : Text) → compact outside (written_data s) ≡ compact outside s
unfolding written_data
written_data-compact s = compact-indent 3 false outside (compact outside s) ∙ compact_idem outside s
