-- ===== src/State/Display/Safety.antt =====
-- The display texts and the statuses that end a plan.
use lottery.Prelude.{ℕ, ◌≤◌, ◌≡◌, refl, true, false, arith}
use lottery.Prelude.Text.{Text, text_eq, to_lower, contains, has_prefix, byte_len}
use lottery.Prelude.Result.{ok}
use lottery.State.Types.{plan_pending, plan_running}
use lottery.State.Display.{
  normalize_task_type, normalize_auto_task_type, is_terminal_status, is_plan_status,
  normalize_finished_status, hidden_text, contains_any, contains_sensitive, normalize_display_text,
}

hidden_text-clean : contains_sensitive hidden_text ≡ false
unfolding contains_sensitive contains_any contains to_lower has_prefix
hidden_text-clean = refl

hidden_text-length : byte_len hidden_text ≡ 21
unfolding byte_len
hidden_text-length = refl

-- A text that passes holds no sensitive marker and keeps to the limit, if that has room for the
-- notice which replaces a sensitive text.
pub normalize_display_text_safe :
    (value : Text) (max_len : ℕ) (shown : Text)
    → 21 ≤ max_len
    → normalize_display_text value max_len ≡ ok shown
    → (contains_sensitive shown ≡ false) × (byte_len shown ≤ max_len)
unfolding normalize_display_text
normalize_display_text_safe value max_len shown room h =
    ground (arith, hidden_text-clean, hidden_text-length)

-- The functions of schedules.go and store.go are the same.
pub normalize_task_type_agree :
    (value : Text) → normalize_auto_task_type value ≡ normalize_task_type value
unfolding normalize_auto_task_type normalize_task_type
normalize_task_type_agree value = ground arith

pub terminal-pending : is_terminal_status plan_pending ≡ false
unfolding is_terminal_status text_eq
terminal-pending = refl

pub terminal-running : is_terminal_status plan_running ≡ false
unfolding is_terminal_status text_eq
terminal-running = refl

pub terminal-IsStatus :
    (status : Text) → is_terminal_status status ≡ true → is_plan_status status ≡ true
unfolding is_terminal_status is_plan_status
terminal-IsStatus status h = ground arith

-- A status that ends a plan is accepted as it stands once it has been normalized.
pub normalize_finished_status-terminal :
    (status result : Text)
    → normalize_finished_status status ≡ ok result
    → is_terminal_status result ≡ true
unfolding normalize_finished_status
normalize_finished_status-terminal status result h = ground arith
