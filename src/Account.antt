-- ===== src/Account.antt =====
-- internal/account/record.go: account records, their validation, and masked login names.
pub mod Masking
pub mod Identity
use lottery.Prelude.{
  ℕ, ◌<◌, Bool, true, false, ◌&&◌, ◌||◌, not, Option, none, some, [], ◌∷◌, ◌++◌, ltb, leb, ◌==◌,
  if◌then◌else◌, length,
}
use lottery.Prelude.Text.{Text, codes, text_eq, is_empty, byte_len, trim_space, contains}
use lottery.Prelude.Int.{ℤ, pos, ltb_ℤ}
use lottery.Prelude.Time.{Time}
use lottery.Prelude.Result.{
  Result, ◌>>=◌, reject_if, ◌>>◌, invalid_id, label_required, label_too_long, login_name_spaces,
  login_name_unmasked, status_unsupported, negative_remote_user,
}

abbrev pub status_enabled : Text
status_enabled = codes "enabled"

abbrev pub status_disabled : Text
status_disabled = codes "disabled"

abbrev pub auth_healthy : Text
auth_healthy = codes "healthy"

abbrev pub auth_needs_reauth : Text
auth_needs_reauth = codes "needs_reauth"

abbrev pub auth_unknown : Text
auth_unknown = codes "unknown"

-- Statuses are strings, as in the source.
pub record Record : Type 0 where
  pub id : Text
  pub label : Text
  pub masked_login_name : Text
  pub status : Text
  pub remote_user_id : ℤ
  pub created_at : Time
  pub updated_at : Time

-- What stands before and after the last `c`, as cut at strings.LastIndex.
unfoldable pub cut_last : ℕ → Text → Option (Text × Text)
cut_last c [] = none
cut_last c (x ∷ s) = elim (cut_last c s) [
  | some (before, after) ↦ some (x ∷ before, after)
  | none ↦ if x == c then some ([], s) else none
]

abbrev pub mask : Text
mask = codes "***"

-- The first rune of the local part and the fixed mask.
unfoldable pub mask_local : Text → Text
mask_local [] = mask
mask_local (r ∷ _) = r ∷ mask

unfoldable pub mask_parts : Text → Text → Text
mask_parts local domain =
    if is_empty domain then mask_local local else mask_local local ++ (b'@' ∷ domain)

unfoldable pub mask_trimmed : Text → Text
mask_trimmed value = if is_empty value then [] else elim (cut_last b'@' value) [
  | some (local, domain) ↦ mask_parts local domain
  | none ↦ mask_parts value []
]

-- MaskLoginName
unfoldable pub mask_login_name : Text → Text
mask_login_name value = mask_trimmed (trim_space value)

unfoldable pub is_unmasked_login_name : Text → Bool
is_unmasked_login_name value = elim (cut_last b'@' value) [
  | some (local, _) ↦ not (contains local mask)
  | none ↦ false
]

unfoldable pub is_id_char : ℕ → Bool
is_id_char c = (leb b'a' c && leb c b'z') || (leb b'0' c && leb c b'9')

-- The loop of validID; `at_start` is `index == 0`.
unfoldable pub valid_id_from : Bool → Text → Bool
valid_id_from at_start [] = true
valid_id_from at_start (c ∷ s) =
    (is_id_char c || (c == b'-' && not at_start)) && valid_id_from false s

unfoldable pub valid_id : Text → Bool
valid_id id = if is_empty id || ltb 64 (byte_len id) then false else valid_id_from true id

-- Record.Validate
unfoldable pub validate : Record → Result (Unit {0})
validate r = do
  reject_if (not (valid_id r.id)) invalid_id
  let label = trim_space r.label
  reject_if (is_empty label) label_required
  reject_if (ltb 64 (length label)) label_too_long
  reject_if (contains r.masked_login_name (codes " ")) login_name_spaces
  reject_if (is_unmasked_login_name r.masked_login_name) login_name_unmasked
  reject_if (not (text_eq r.status status_enabled || text_eq r.status status_disabled))
      status_unsupported
  reject_if (ltb_ℤ r.remote_user_id (pos 0)) negative_remote_user
