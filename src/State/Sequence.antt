-- ===== src/State/Sequence.antt =====
-- The sequential account codes of internal/state/accounts.go: account-a1 to account-a9, then
-- account-b1, up to account-z9.
pub mod Order
use lottery.Prelude.{
  ℕ, ◌+◌, ◌-◌, ◌*◌, Bool, true, false, ◌&&◌, ◌||◌, Option, none, some, List, [], ◌∷◌, ◌++◌, ltb,
  leb, ◌==◌, if◌then◌else◌, ◌≡◌, refl, not, length, drop,
}
use lottery.Prelude.Text.{Text, codes, is_empty, has_prefix}
use lottery.Prelude.Dict.{Dict}
use lottery.Prelude.Result.{Result, ok, err, ids_exhausted}
use lottery.Account.{Record}

-- A code as its letter, counted from a, and its digit; (0, 0) stands for none.
abbrev pub Code : Type 0
Code = ℕ × ℕ

abbrev pub id_prefix : Text
id_prefix = codes "account-"

-- strings.TrimPrefix
unfoldable pub trim_prefix : Text → Text → Text
trim_prefix s prefix = if has_prefix s prefix then drop (length prefix) s else s

-- The letter and the digit of a suffix of two bytes, from a to z and from 1 to 9.
unfoldable pub parse_suffix : Text → Option Code
parse_suffix (l ∷ d ∷ []) =
    if leb b'a' l && leb l b'z' && leb b'1' d && leb d b'9' then some (l - b'a', d - b'0') else none
parse_suffix _ = none

unfoldable pub print_code : Code → Text
print_code (letter, digit) = id_prefix ++ (b'a' + letter) ∷ (b'0' + digit) ∷ []

-- The code that an account ID carries.
unfoldable pub parse_code : Text → Option Code
parse_code id = parse_suffix (trim_prefix id id_prefix)

-- The watermark as newAccountID reads it: what is no sequential ID counts as none.
unfoldable pub watermark_code : Text → Code
watermark_code watermark = elim (parse_code watermark) [ some code ↦ code | none ↦ (0, 0) ]

unfoldable pub advance : Code → Code
advance (letter, digit) = if ltb 9 (digit + 1) then (letter + 1, 1) else (letter, digit + 1)

-- newAccountID; 25 is 'z' - 'a'.
unfoldable pub new_account_id : Text → Result Text
new_account_id watermark =
    let next = advance (watermark_code watermark) in
    if ltb 25 next.0 then err ids_exhausted else ok (print_code next)

-- The larger of the code of an ID and the largest so far.
unfoldable pub larger : Option Code → Code → Code
larger none best = best
larger (some (letter, digit)) (max_letter, max_digit) =
    if ltb max_letter letter || (letter == max_letter && ltb max_digit digit)
    then (letter, digit)
    else (max_letter, max_digit)

unfoldable pub highest : Dict Record → Code
highest [] = (0, 0)
highest ((id, record_) ∷ accounts) = larger (parse_code id) (highest accounts)

-- The watermark that nextSequentialAccountID starts from: the stored one, or on first use the highest
-- sequential ID of the accounts.
unfoldable pub seeded_watermark : Text → Dict Record → Text
seeded_watermark stored accounts =
    if not (is_empty stored)
    then stored
    else let best = highest accounts in if ltb 0 best.0 || ltb 0 best.1 then print_code best else []

-- AccountRegistry.nextSequentialAccountID
unfoldable pub next_sequential_account_id : Text → Dict Record → Result Text
next_sequential_account_id stored accounts = new_account_id (seeded_watermark stored accounts)

first_code : new_account_id [] ≡ ok (codes "account-a1")
unfolding new_account_id watermark_code parse_code parse_suffix trim_prefix advance print_code
    has_prefix
first_code = refl

next_letter : new_account_id (codes "account-b9") ≡ ok (codes "account-c1")
unfolding new_account_id watermark_code parse_code parse_suffix trim_prefix advance print_code
    has_prefix
next_letter = refl
