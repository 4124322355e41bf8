-- ===== src/Service/DailyClaim/Guarded.antt =====
-- ClaimDaily on an action that exists.
use lottery.Prelude.{◌≡◌, refl, ◌⊎◌, inl, inr, true, false, some, arith}
use lottery.Prelude.Text.{Text, text_eq, trim_space}
use lottery.Prelude.Result.{ok, err, required}
use lottery.State.Types.{Action, Store, action_unknown, action_daily_claim}
use lottery.State.Persist.{Env, on_ok}
use lottery.State.Actions.{action_key, get_or_create_action}
use lottery.State.Actions.Lifecycle.{stored}
use lottery.Service.{Reply-cases, Site, World, handle, after, of_result, on_store, enabled_account}
use lottery.Service.DailyClaim.{resume_claim, claim_daily}
use lottery.Service.DailyClaim.Quiet.{IsQuiet, reconcile_daily_claim-IsQuiet}

-- The stored action is completed, unknown, or marked as started.
abbrev pub MayHaveClaimed : Action → Type 0
MayHaveClaimed a = (a.status ≡ action_unknown) ⊎ (a.side_effect_started ≡ true)

resume_claim-IsQuiet :
    (site : Site) (account_id : Text) (action : Action) (w : World)
    → MayHaveClaimed action
    → IsQuiet w (resume_claim site account_id action w).1
unfolding resume_claim text_eq
resume_claim-IsQuiet site account_id action w h =
    ground (arith, reconcile_daily_claim-IsQuiet site account_id action w)

-- An action that exists is found, and nothing is changed.
pub get_or_create_action-found :
    (e : Env) (account_id date kind : Text) (s : Store) (a : Action)
    → stored (action_key (trim_space account_id) (trim_space date) kind) s ≡ some a
    → ((get_or_create_action e account_id date kind s).1 ≡ s)
      × (((get_or_create_action e account_id date kind s).0 ≡ ok (a, false))
          ⊎ ((get_or_create_action e account_id date kind s).0 ≡ err required))
unfolding get_or_create_action on_ok
get_or_create_action-found e account_id date kind s a h = ground arith

-- ClaimDaily posts no claim if the action of that account and day may have claimed already: if its
-- result is unknown, or it is marked as started.
pub claim_daily-IsQuiet :
    (site : Site) (account_id : Text) (w : World) (a : Action)
    → stored
        (action_key (trim_space account_id) (trim_space (site.today w.asked)) action_daily_claim)
        w.store
      ≡ some a
    → MayHaveClaimed a
    → IsQuiet w (claim_daily site account_id w).1
unfolding claim_daily after handle on_store of_result
claim_daily-IsQuiet site account_id w a h may =
    let date = site.today w.asked in
    let found =
      get_or_create_action-found (site.env w.asked) account_id date action_daily_claim w.store a
        h in
    elim (Reply-cases (enabled_account account_id w.store)) [
      | inr (why, q) ↦ rw (q, claim_daily, after, handle) refl
      | inl (r, q) ↦ elim found.1 [
        | inr missing ↦ rw (q, missing, claim_daily, after, handle, on_store, of_result) refl
        | inl existing ↦
            rw (q, existing, claim_daily, after, handle, on_store, of_result)
              (resume_claim-IsQuiet site account_id a _ may)
      ]
    ]
