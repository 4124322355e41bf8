-- ===== src/State/Sequence/Order.antt =====
-- The account codes in their order.
use lottery.Prelude.{
  ℕ, suc, ◌+◌, ◌*◌, ◌≤◌, ◌≡◌, ◌↔◌, inl, inr, true, some, [], ◌∷◌, arith, Option-cases, ltb,
}
use lottery.Prelude.Text.{Text, has_prefix}
use lottery.Prelude.Result.{ok, err, ids_exhausted}
use lottery.State.Sequence.{
  Code, trim_prefix, parse_suffix, print_code, parse_code, watermark_code, advance, new_account_id,
}

-- The place of a code in the sequence, from 1 for a1; 0 is before the first.
abbrev pub rank : Code → ℕ
rank (letter, digit) = letter * 9 + digit

abbrev pub IsCode : Code → Type 0
IsCode (letter, digit) = (letter ≤ 25) × (1 ≤ digit) × (digit ≤ 9)

parse_suffix-print :
    (letter digit : ℕ)
    → IsCode (letter, digit)
    → parse_suffix ((b'a' + letter) ∷ (b'0' + digit) ∷ []) ≡ some (letter, digit)
unfolding parse_suffix
parse_suffix-print letter digit h = ground arith

pub parse_code-print_code : (c : Code) → IsCode c → parse_code (print_code c) ≡ some c
unfolding parse_code print_code trim_prefix has_prefix
parse_code-print_code (letter, digit) h = parse_suffix-print letter digit h

parse_suffix-IsCode : (s : Text) (c : Code) → parse_suffix s ≡ some c → IsCode c
unfolding parse_suffix
parse_suffix-IsCode [] c h = absurd (ground arith)
parse_suffix-IsCode (l ∷ []) c h = absurd (ground arith)
parse_suffix-IsCode (l ∷ d ∷ []) c h = ground arith
parse_suffix-IsCode (l ∷ d ∷ x ∷ s) c h = absurd (ground arith)

pub parse_code-IsCode : (id : Text) (c : Code) → parse_code id ≡ some c → IsCode c
unfolding parse_code
parse_code-IsCode id c h = parse_suffix-IsCode _ c h

watermark_code-bounds : (w : Text) → ((watermark_code w).0 ≤ 25) × ((watermark_code w).1 ≤ 9)
unfolding watermark_code
watermark_code-bounds w = elim (Option-cases (parse_code w)) [
  | inl q ↦ rw (q, watermark_code) (omega arith, omega arith)
  | inr (c, q) ↦ let b = parse_code-IsCode w c q in rw (q, watermark_code) (b.0, b.2)
]

-- A new code is the one that follows the watermark, and reads back as itself.
pub new_account_id_next :
    (watermark id : Text)
    → new_account_id watermark ≡ ok id
    → (c : Code) × (id ≡ print_code c)
      × IsCode c
      × (rank c ≡ suc (rank (watermark_code watermark)))
      × (watermark_code id ≡ c)
unfolding new_account_id
new_account_id_next watermark id h =
    let next = advance (watermark_code watermark) in
    let bounds = watermark_code-bounds watermark in
    let valid : IsCode next = unfold advance in ground arith in
    let printed : id ≡ print_code next = ground arith in
    (
      next,
      printed,
      valid,
      (unfold advance in ground arith),
      rw printed (unfold watermark_code in rw (parse_code-print_code next valid, watermark_code)),
    )

exhausted_from : (c : Code) → (c.0 ≤ 25) × (c.1 ≤ 9) → (ltb 25 (advance c).0 ≡ true) ↔ (c ≡ (25, 9))
unfolding advance
exhausted_from (letter, digit) h = (λ e. ground arith, λ e. ground arith)

-- The codes run out after z9, and at no other watermark.
pub new_account_id_exhausted :
    (watermark : Text)
    → (new_account_id watermark ≡ err ids_exhausted) ↔ (watermark_code watermark ≡ (25, 9))
unfolding new_account_id
new_account_id_exhausted watermark =
    let last = exhausted_from (watermark_code watermark) (watermark_code-bounds watermark) in
    (λ h. last.0 (ground arith), λ h. ground (arith, last.1 h))
