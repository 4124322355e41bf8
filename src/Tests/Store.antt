-- ===== src/Tests/Store.antt =====
-- Runs of the action operations and of whole sessions.
use lottery.Prelude.{◌≡◌, refl, Bool, true, false, none, some, List, [], ◌∷◌}
use lottery.Prelude.Text.{Text, codes}
use lottery.Prelude.Result.{ok}
use lottery.State.Types.{Action, Store, absent}
use lottery.State.Persist.{Env, fresh, open_store, load}
use lottery.State.Actions.{new_action}
use lottery.State.Actions.Lifecycle.{
  stored, reset_retryable, rotate_repeatable, perform_all, perform_all-keeps_started,
}
use lottery.State.Session.{run_all, create, append_log, Command}
use lottery.State.Session.Durable.{IsReread, json_at}
use lottery.State.Session.Durable.Run.{run_all-reopens}
use lottery.Tests.Data.{
  calm, later, broken, new_store, first_account, day, claim, person, log_entry,
}

abbrev calls : List (Env × Command)
calls = (calm, create person) ∷ (broken, append_log log_entry) ∷ (later, append_log log_entry) ∷ []

run_all-reopens_example :
    (t : Store) × (open_store (run_all calls new_store).file ≡ ok t)
    × IsReread t.content (run_all calls new_store).content
    × ((k : Text) → json_at k t.content ≡ json_at k (run_all calls new_store).content)
unfolding open_store load
run_all-reopens_example = run_all-reopens absent new_store calls refl refl

abbrev key : Text
key = codes "2026-05-01:daily_claim:account-a1"

abbrev made : Action
made = new_action calm key first_account day claim (codes "draw:ab12")

abbrev with_action : Action → Store
with_action a = record new_store { content = record fresh { actions = (key, a) ∷ [] } }

abbrev failed : Action
failed = record made { status = codes "failed"; retryable = true }

abbrev started : Action
started = record made { side_effect_started = true }

perform_all-keeps_started_example :
    stored key (
      perform_all
        ((later, rotate_repeatable key) ∷ (later, reset_retryable key) ∷ [])
        (with_action started))
    ≡ some started
unfolding lottery.Prelude.Dict.lookup lottery.Prelude.Text.text_eq
perform_all-keeps_started_example =
    perform_all-keeps_started ((later, rotate_repeatable key) ∷ (later, reset_retryable key) ∷ [])
      key (with_action started) started refl refl
