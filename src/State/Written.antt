-- ===== src/State/Written.antt =====
-- The data of internal/state/store.go as a read of the state file gives them: every text is valid
-- UTF-8, and the raw message of a snapshot has other white space and escapes.
use lottery.Prelude.{◌==◌, if◌then◌else◌, Option, none, some, [], ◌∷◌, map, ◌≡◌, refl, arith}
use lottery.Prelude.Text.{Text}
use lottery.Prelude.Dict.{Dict, lookup}
use lottery.Account.{Record}
use lottery.Quota.Money.{Money}
use lottery.State.Json.{valid_text, written_data}
use lottery.State.Types.{
  Float, Cookie, AuthState, DrawSummary, Action, Snapshot, AutoDrawPlan, RuntimeLog,
  AutoDrawSchedule, DiskState,
}

abbrev pub written_money : Option Money → Option Money
written_money none = none
written_money (some m) = some (record m {
  currency = valid_text m.currency;
  value = valid_text m.value;
  display = valid_text m.display;
  state = valid_text m.state;
  source = valid_text m.source;
  formula = valid_text m.formula;
})

abbrev pub written_cookie : Cookie → Cookie
written_cookie c = record c {
  name = valid_text c.name;
  value = valid_text c.value;
  path = valid_text c.path;
  domain = valid_text c.domain;
}

abbrev pub written_auth : AuthState → AuthState
written_auth a = record a {
  parent_access_token = valid_text a.parent_access_token;
  lottery_access_token = valid_text a.lottery_access_token;
  cookies = map written_cookie a.cookies;
}

-- The bit pattern of -0, which `omitempty` leaves out like 0.
abbrev pub minus_zero : Float
minus_zero = 0x8000000000000000

abbrev pub written_summary : Option DrawSummary → Option DrawSummary
written_summary none = none
written_summary (some r) = some (record r {
  draw_id = valid_text r.draw_id;
  prize_id = valid_text r.prize_id;
  prize_label = valid_text r.prize_label;
  prize_short_label = valid_text r.prize_short_label;
  draw_status = valid_text r.draw_status;
  fulfillment_status = valid_text r.fulfillment_status;
  fulfillment_message = valid_text r.fulfillment_message;
  effect_summary = valid_text r.effect_summary;
  quota_delta = if r.quota_delta == minus_zero then 0 else r.quota_delta;
})

abbrev pub written_action : Action → Action
written_action a = record a {
  key = valid_text a.key;
  account_id = valid_text a.account_id;
  date = valid_text a.date;
  kind = valid_text a.kind;
  idempotency_key = valid_text a.idempotency_key;
  status = valid_text a.status;
  price_usd = written_money a.price_usd;
  checkin_quota_awarded_usd = written_money a.checkin_quota_awarded_usd;
  message = valid_text a.message;
  last_error = valid_text a.last_error;
  result = written_summary a.result;
}

abbrev pub written_snapshot : Snapshot → Snapshot
written_snapshot p = record p {
  account_id = valid_text p.account_id;
  kind = valid_text p.kind;
  content = written_data p.content;
}

abbrev pub written_plan : AutoDrawPlan → AutoDrawPlan
written_plan p = record p {
  key = valid_text p.key;
  date = valid_text p.date;
  account_id = valid_text p.account_id;
  window_id = valid_text p.window_id;
  task_type = valid_text p.task_type;
  idempotency_key = valid_text p.idempotency_key;
  status = valid_text p.status;
  message = valid_text p.message;
  prize_label = valid_text p.prize_label;
  quota_delta_usd = written_money p.quota_delta_usd;
  note = valid_text p.note;
}

abbrev pub written_log : RuntimeLog → RuntimeLog
written_log l = record l {
  id = valid_text l.id;
  account_id = valid_text l.account_id;
  window_id = valid_text l.window_id;
  task_type = valid_text l.task_type;
  status = valid_text l.status;
  message = valid_text l.message;
  prize_label = valid_text l.prize_label;
  quota_delta_usd = written_money l.quota_delta_usd;
}

abbrev pub written_schedule : AutoDrawSchedule → AutoDrawSchedule
written_schedule e = record e {
  id = valid_text e.id;
  kind = valid_text e.kind;
  start = valid_text e.start;
  until = valid_text e.until;
  task_type = valid_text e.task_type;
}

abbrev pub written_record : Record → Record
written_record r = record r {
  id = valid_text r.id;
  label = valid_text r.label;
  masked_login_name = valid_text r.masked_login_name;
  status = valid_text r.status;
}

-- Every value of a map.
unfoldable pub map_values {ℓ κ} : {V : Type ℓ} {W : Type κ} → (V → W) → Dict V → Dict W
map_values f [] = []
map_values f ((k, v) ∷ d) = (k, f v) ∷ map_values f d

-- The data as a read of the file gives them, up to the default of `enabled`. The keys of the maps are
-- identifiers, and taken to be valid texts.
unfoldable pub as_written : DiskState → DiskState
as_written d = record d {
  accounts = map_values written_record d.accounts;
  auth_health = map_values valid_text d.auth_health;
  legacy_auth = map_values written_auth d.legacy_auth;
  draw_schedules = map_values (map written_schedule) d.draw_schedules;
  account_id_seq = valid_text d.account_id_seq;
  actions = map_values written_action d.actions;
  snapshots = map_values written_snapshot d.snapshots;
  plans = map_values written_plan d.plans;
  logs = map written_log d.logs;
}

pub lookup-map_values {ℓ κ} :
    {V : Type ℓ} {W : Type κ} (f : V → W) (k : Text) (d : Dict V)
    → lookup k (map_values f d) ≡ elim (lookup k d) [ none ↦ none | some v ↦ some (f v) ]
unfolding lookup map_values
lookup-map_values f k [] = refl
lookup-map_values f k ((j, v) ∷ d) = ground (arith, lookup-map_values f k d)
