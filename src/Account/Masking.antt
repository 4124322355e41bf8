-- ===== src/Account/Masking.antt =====
-- MaskLoginName against isUnmaskedLoginName, of internal/account/record.go.
use lottery.Prelude.{
  ℕ, ◌≡◌, refl, inl, inr, true, false, none, some, [], ◌∷◌, ◌++◌, ◌==◌, arith, Option-cases,
}
use lottery.Prelude.Text.{Text, trim_space, contains, has_prefix}
use lottery.Account.{
  cut_last, mask, mask_local, mask_parts, mask_trimmed, mask_login_name, is_unmasked_login_name,
}

-- After the last `c` there is none.
cut_last-after :
    (c : ℕ) (s before after : Text) → cut_last c s ≡ some (before, after) → cut_last c after ≡ none
unfolding cut_last
cut_last-after c [] before after h = absurd (ground arith)
cut_last-after c (x ∷ s) before after h = elim (Option-cases (cut_last c s)) [
  | inl q ↦ ground arith
  | inr ((b, a), q) ↦ ground (arith, cut_last-after c s b a q)
]

cut_last-append :
    (c : ℕ) (before after : Text)
    → cut_last c after ≡ none
    → cut_last c (before ++ c ∷ after) ≡ some (before, after)
unfolding cut_last
cut_last-append c [] after h = ground arith
cut_last-append c (x ∷ before) after h = ground (arith, cut_last-append c before after h)

mask_local-contains : (local : Text) → contains (mask_local local) mask ≡ true
unfolding contains mask_local
mask_local-contains [] = refl
mask_local-contains (r ∷ local) = ground arith

-- The masked form of a local part that starts with another rune has no at sign.
mask_local-cut :
    (r : ℕ) (local : Text) → r == b'@' ≡ false → cut_last b'@' (mask_local (r ∷ local)) ≡ none
unfolding cut_last mask_local
mask_local-cut r local h = ground arith

mask_parts-masked :
    (r : ℕ) (local domain : Text)
    → r == b'@' ≡ false
    → cut_last b'@' domain ≡ none
    → is_unmasked_login_name (mask_parts (r ∷ local) domain) ≡ false
unfolding mask_parts is_unmasked_login_name
mask_parts-masked r local [] h k = ground (arith, mask_local-cut r local h)
mask_parts-masked r local (d ∷ domain) h k = ground (
  arith,
  cut_last-append b'@' (mask_local (r ∷ local)) (d ∷ domain) k,
  mask_local-contains (r ∷ local),
)

-- An at sign that is not the first rune leaves a local part with the first rune.
cut_last-first :
    (c r : ℕ) (s before after : Text)
    → r == c ≡ false
    → cut_last c (r ∷ s) ≡ some (before, after)
    → (local : Text) × (before ≡ r ∷ local)
unfolding cut_last
cut_last-first c r s before after h k = elim (Option-cases (cut_last c s)) [
  | inl q ↦ absurd (ground arith)
  | inr ((b, a), q) ↦ (b, ground arith)
]

mask_trimmed-masked :
    (value : Text)
    → has_prefix value (b'@' ∷ []) ≡ false
    → is_unmasked_login_name (mask_trimmed value) ≡ false
unfolding mask_trimmed has_prefix is_unmasked_login_name cut_last
mask_trimmed-masked [] h = refl
mask_trimmed-masked (r ∷ s) h = elim (Option-cases (cut_last b'@' (r ∷ s))) [
  | inl q ↦ rw q (mask_parts-masked r s [] (ground arith) refl)
  | inr ((before, after), q) ↦
      let (local, same) = cut_last-first b'@' r s before after (ground arith) q in
      rw (q, same)
        (mask_parts-masked r local after (ground arith)
          (cut_last-after b'@' (r ∷ s) before after q))
]

-- The result of MaskLoginName is never taken for a full login name, unless the trimmed name starts
-- with an at sign.
pub mask_login_name-masked :
    (value : Text)
    → has_prefix (trim_space value) (b'@' ∷ []) ≡ false
    → is_unmasked_login_name (mask_login_name value) ≡ false
unfolding mask_login_name
mask_login_name-masked value h = mask_trimmed-masked (trim_space value) h
