-- ===== src/State/Logs/Atomic.antt =====
-- What AppendRuntimeLog writes.
use lottery.Prelude.{◌≡◌, ap, ◌≤◌, false, [], ◌∷◌, ◌++◌, arith, take-append}
use lottery.Prelude.Text.{byte_len}
use lottery.Prelude.Result.{ok}
use lottery.State.Types.{RuntimeLog, Store}
use lottery.State.Persist.{Env, commit, on_ok}
use lottery.State.Persist.RoundTrip.{Transacts, commit-Transacts, on_ok-Transacts}
use lottery.State.Display.{contains_sensitive}
use lottery.State.Display.Safety.{normalize_display_text_safe}
use lottery.State.Logs.{with_logs, normalize_log, append_runtime_log}

-- AppendRuntimeLog is a transaction.
pub append_runtime_log-Transacts :
    (e : Env) (given : RuntimeLog) (s : Store) → Transacts s (append_runtime_log e given s)
unfolding append_runtime_log
append_runtime_log-Transacts e given s =
    on_ok-Transacts _ s _ λ log h.
      commit-Transacts e _ _ log s (ap (with_logs s) (take-append s.content.logs (log ∷ [])))

-- An entry that is appended goes to the end of the log and leaves the earlier entries alone. Neither
-- its message, of at most 512 bytes, nor its prize, of at most 256, holds a sensitive marker.
pub append_runtime_log_lem :
    (e : Env) (given log : RuntimeLog) (s : Store)
    → (append_runtime_log e given s).0 ≡ ok log
    → ((append_runtime_log e given s).1.content.logs ≡ s.content.logs ++ log ∷ [])
      × (contains_sensitive log.message ≡ false)
      × (contains_sensitive log.prize_label ≡ false)
      × (byte_len log.message ≤ 512)
      × (byte_len log.prize_label ≤ 256)
unfolding append_runtime_log normalize_log commit on_ok
append_runtime_log_lem e given log s h = ground (
  arith,
  normalize_display_text_safe given.message 512 log.message,
  normalize_display_text_safe given.prize_label 256 log.prize_label,
)
