-- ===== src/Account/Identity.antt =====
-- The characters of account IDs, of validID in internal/account/record.go.
use lottery.Prelude.{◌≡◌, refl, Bool, true, false, ◌||◌, [], ◌∷◌, ◌++◌, ◌==◌, arith}
use lottery.Prelude.Text.{Text, has_prefix}
use lottery.Account.{is_id_char, valid_id_from, valid_id}

unfoldable pub has_colon : Text → Bool
has_colon [] = false
has_colon (c ∷ s) = c == b':' || has_colon s

valid_id_from-has_colon :
    (at_start : Bool) (s : Text) → valid_id_from at_start s ≡ true → has_colon s ≡ false
unfolding valid_id_from has_colon is_id_char
valid_id_from-has_colon at_start [] h = refl
valid_id_from-has_colon at_start (c ∷ s) h = ground (arith, valid_id_from-has_colon false s)

pub valid_id-has_colon : (id : Text) → valid_id id ≡ true → has_colon id ≡ false
unfolding valid_id
valid_id-has_colon id h = ground (arith, valid_id_from-has_colon true id)

-- Texts without a colon are told apart by what stands before the first colon.
pub prefix-same :
    (a b rest : Text)
    → has_colon a ≡ false
    → has_colon b ≡ false
    → has_prefix (b ++ b':' ∷ rest) (a ++ b':' ∷ []) ≡ true
    → a ≡ b
unfolding has_colon has_prefix
prefix-same [] [] rest ha hb h = refl
prefix-same [] (y ∷ b) rest ha hb h = absurd (ground arith)
prefix-same (x ∷ a) [] rest ha hb h = absurd (ground arith)
prefix-same (x ∷ a) (y ∷ b) rest ha hb h = ground (arith, prefix-same a b rest)
