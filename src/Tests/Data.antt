-- ===== src/Tests/Data.antt =====
-- The data of the runs: two environments that write, one that does not, and a new store.
use lottery.Prelude.{◌+◌, none, some, []}
use lottery.Prelude.Text.{Text, codes}
use lottery.Prelude.Int.{pos}
use lottery.Account.{Record}
use lottery.State.Types.{Store, absent, AutoDrawPlan, Snapshot, RuntimeLog}
use lottery.State.Persist.{Env, fresh}

abbrev pub calm : Env
calm = record { clock = λ n. 100 + n; random = λ n. some (codes "ab12"); write = none }

abbrev pub later : Env
later = record { clock = λ n. 200 + n; random = λ n. some (codes "cd34"); write = none }

abbrev pub broken : Env
broken = record {
  clock = λ n. 300 + n;
  random = λ n. some (codes "ef56");
  write = some (codes "no space");
}

abbrev pub new_store : Store
new_store = record { content = fresh; file = absent }

abbrev pub first_account : Text
first_account = codes "account-a1"

abbrev pub day : Text
day = codes "2026-05-01"

abbrev pub claim : Text
claim = codes "daily_claim"

abbrev pub person : Record
person = record {
  id = [];
  label = codes "Home";
  masked_login_name = codes "m***@x.io";
  status = [];
  remote_user_id = pos 7;
  created_at = 0;
  updated_at = 0;
}

abbrev pub morning : AutoDrawPlan
morning = record {
  key = [];
  date = day;
  account_id = first_account;
  window_id = codes "w1";
  task_type = codes "draw";
  planned_at = 50;
  idempotency_key = [];
  status = [];
  executed_at = 0;
  message = [];
  prize_label = [];
  quota_delta_usd = none;
  note = [];
  created_at = 0;
  updated_at = 0;
}

abbrev pub snapshot : Snapshot
snapshot = record {
  account_id = codes "account-a2";
  kind = codes "quota";
  content = codes "{}";
  queried_at = 5;
}

abbrev pub log_entry : RuntimeLog
log_entry = record {
  id = codes "l1";
  occurred_at = 9;
  account_id = first_account;
  window_id = codes "w1";
  task_type = [];
  status = codes "completed";
  message = codes "token=abc";
  prize_label = [];
  quota_delta_usd = none;
}
