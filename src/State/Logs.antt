-- ===== src/State/Logs.antt =====
-- The runtime log of internal/state/store.go.
pub mod Atomic
use lottery.Prelude.{
  ℕ, zero, suc, ◌+◌, Bool, true, false, ◌||◌, Option, none, some, List, [], ◌∷◌, ◌++◌, ltb, leb,
  if◌then◌else◌, reverse, take, length,
}
use lottery.Prelude.Text.{Text, codes, is_empty, trim_space}
use lottery.Prelude.Time.{is_zero}
use lottery.Prelude.Result.{Result, ok, err, ◌>>=◌, ◌>>◌, reject_if, required, status_required}
use lottery.State.Types.{RuntimeLog, Store, DiskState}
use lottery.State.Persist.{Env, new_id, commit, on_ok}
use lottery.State.Display.{normalize_auto_task_type, normalize_status, normalize_display_text}

unfoldable pub log_id : Env → Text → Result Text
log_id e given = if is_empty given then new_id e 0 (codes "runtime") else ok given

-- normalizeRuntimeLog
unfoldable pub normalize_log : Env → RuntimeLog → Result RuntimeLog
normalize_log e log = do
  let account_id = trim_space log.account_id
  let window_id = trim_space log.window_id
  reject_if (is_empty account_id || is_empty window_id) required
  status ← normalize_status log.status
  reject_if (is_empty status) status_required
  message ← normalize_display_text log.message 512
  prize ← normalize_display_text log.prize_label 256
  id ← log_id e (trim_space log.id)
  ok (record {
    id = id;
    occurred_at = if is_zero log.occurred_at then e.clock 0 else log.occurred_at;
    account_id = account_id;
    window_id = window_id;
    task_type = normalize_auto_task_type log.task_type;
    status = status;
    message = message;
    prize_label = prize;
    quota_delta_usd = log.quota_delta_usd;
  })

abbrev pub with_logs : Store → List RuntimeLog → DiskState
with_logs s logs = record (s.content) { logs = logs }

-- Store.AppendRuntimeLog; a failed write cuts the log back to its previous length.
unfoldable pub append_runtime_log : Env → RuntimeLog → Store → Result RuntimeLog × Store
append_runtime_log e given s = on_ok (normalize_log e given) s λ log.
    let written = s.content.logs ++ log ∷ [] in
    commit e (with_logs s written) (with_logs s (take (length s.content.logs) written)) log s

-- Store.RuntimeLogs: the latest first, and at most `limit` if that is positive.
unfoldable pub runtime_logs : ℕ → Store → List RuntimeLog
runtime_logs limit s =
    let latest = reverse s.content.logs in if ltb 0 limit then take limit latest else latest
