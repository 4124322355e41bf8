-- ===== src/State/Display.antt =====
-- Texts that internal/state shows or compares: statuses, task types, dates and display texts
-- (internal/state/store.go, internal/state/schedules.go).
pub mod Safety
use lottery.Prelude.{
  ◌≡◌, refl, ℕ, ◌+◌, ◌-◌, ◌*◌, ◌%◌, Bool, true, false, ◌&&◌, ◌||◌, not, List, [], ◌∷◌, ltb, leb,
  ◌==◌, if◌then◌else◌,
}
use lottery.Prelude.Text.{
  Text, codes, text_eq, is_empty, byte_len, trim_space, to_lower, contains, join_words,
}
use lottery.Prelude.Result.{
  Result, ok, err, ◌>>=◌, ◌>>◌, reject_if, invalid_status, finish_not_terminal, too_long,
}
use lottery.State.Types.{plan_pending, plan_running, plan_completed, plan_skipped, plan_failed}

abbrev pub task_draw : Text
task_draw = codes "draw"

abbrev pub task_claim : Text
task_claim = codes "claim"

abbrev pub task_checkin : Text
task_checkin = codes "checkin"

-- NormalizeTaskType of schedules.go.
unfoldable pub normalize_task_type : Text → Text
normalize_task_type value =
    let value = to_lower (trim_space value) in
    if text_eq value task_claim || text_eq value task_checkin then value else task_draw

-- normalizeAutoTaskType of store.go, used for the runtime logs.
unfoldable pub normalize_auto_task_type : Text → Text
normalize_auto_task_type value =
    let value = to_lower (trim_space value) in
    if not (text_eq value task_claim) && not (text_eq value task_checkin) then task_draw else value

unfoldable pub is_terminal_status : Text → Bool
is_terminal_status status =
    text_eq status plan_completed || text_eq status plan_skipped || text_eq status plan_failed

unfoldable pub is_plan_status : Text → Bool
is_plan_status status =
    text_eq status plan_pending
    || text_eq status plan_running
    || text_eq status plan_completed
    || text_eq status plan_skipped
    || text_eq status plan_failed

-- normalizeAutoDrawStatus
unfoldable pub normalize_status : Text → Result Text
normalize_status status =
    let trimmed = trim_space status in
    if is_empty trimmed
    then ok []
    else if is_plan_status trimmed
    then ok trimmed
    else err invalid_status

-- normalizeFinishedAutoDrawStatus
unfoldable pub normalize_finished_status : Text → Result Text
normalize_finished_status status = do
  status ← normalize_status status
  reject_if (not (is_terminal_status status)) finish_not_terminal
  ok status

abbrev pub hidden_text : Text
hidden_text = codes "已隐藏敏感详情"

abbrev pub sensitive_markers : List Text
sensitive_markers =
    codes "token"
    ∷ codes "cookie"
    ∷ codes "password"
    ∷ codes "idempotency"
    ∷ codes "bearer "
    ∷ codes "access_token"
    ∷ codes "refresh_token"
    ∷ codes "令牌"
    ∷ codes "密码"
    ∷ codes "凭证"
    ∷ []

unfoldable pub contains_any : Text → List Text → Bool
contains_any value [] = false
contains_any value (marker ∷ rest) = contains value marker || contains_any value rest

-- containsSensitiveDisplayText
unfoldable pub contains_sensitive : Text → Bool
contains_sensitive value = contains_any (to_lower value) sensitive_markers

-- normalizeDisplayText
unfoldable pub normalize_display_text : Text → ℕ → Result Text
normalize_display_text value max_len = do
  let value = join_words (trim_space value)
  reject_if (ltb 0 max_len && ltb max_len (byte_len value)) too_long
  if contains_sensitive value then ok hidden_text else ok value

abbrev digit : ℕ → ℕ
digit c = c - b'0'

abbrev is_digit : ℕ → Bool
is_digit c = leb b'0' c && leb c b'9'

is_leap : ℕ → Bool
is_leap y = y % 4 == 0 && (not (y % 100 == 0) || y % 400 == 0)

days_in : ℕ → ℕ → ℕ
days_in y m =
    if m == 2
    then (if is_leap y then 29 else 28)
    else if m == 4 || m == 6 || m == 9 || m == 11
    then 30
    else 31

is_day_of : ℕ → ℕ → ℕ → Bool
is_day_of y m d = leb 1 m && leb m 12 && leb 1 d && leb d (days_in y m)

-- time.Parse("2006-01-02", value) succeeds.
unfoldable pub is_date : Text → Bool
unfolding is_day_of days_in is_leap
is_date (y1 ∷ y2 ∷ y3 ∷ y4 ∷ a ∷ m1 ∷ m2 ∷ b ∷ d1 ∷ d2 ∷ []) =
    is_digit y1
    && is_digit y2
    && is_digit y3
    && is_digit y4
    && (a == b'-')
    && is_digit m1
    && is_digit m2
    && (b == b'-')
    && is_digit d1
    && is_digit d2
    && is_day_of (digit y1 * 1000 + digit y2 * 100 + digit y3 * 10 + digit y4)
        (digit m1 * 10 + digit m2) (digit d1 * 10 + digit d2)
is_date _ = false

leap_day : is_date (codes "2028-02-29") ≡ true
unfolding is_date
leap_day = refl

no_leap_day : is_date (codes "2026-02-29") ≡ false
unfolding is_date
no_leap_day = refl
