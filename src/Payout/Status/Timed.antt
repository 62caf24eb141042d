-- ===== src/Payout/Status/Timed.antt =====
-- The times of a payout that a refresh settles, and the refresh of a settled one.
use gtd_api.Prelude.{◌⊎◌, false, ℕ, String, ◌≡◌, ◌≢◌, Option, none, some, [], arith}
use gtd_api.Errors.{GoError, Result, ok, err}
use gtd_api.Run.{Run}
use gtd_api.Run.Keeps.{Keeps, keeps_rules}
use gtd_api.Payout.Model.{Payout, PayoutStatus, success, failed, is_final, PayoutStatusOutput}
use gtd_api.Payout.Store.{Env, Effect, PayoutProviderClient, posted, updated}
use gtd_api.Payout.Callback.{
  Delivery, delivered, no_target, undelivered, try_send_final_callback, deliver, deliver_to,
  settle_callback, after_mark,
}
use gtd_api.Payout.Status.{
  refresh_payout, refresh_with, refresh_answered, save_and_announce, apply_status, merge_status,
  timed_out, with_status_error,
}

pub record IsTimed (p : Payout) : Type 0 where
  pub completed : p.status ≡ success → p.completed_at ≢ none
  pub stopped : p.status ≡ failed → p.failed_at ≢ none

-- Every row written and every payout announced has its time.
abbrev pub TimedEffect : Effect → Type 0
TimedEffect (updated q) = IsTimed q
TimedEffect (posted url event q) = IsTimed q
TimedEffect _ = Unit

apply_status-IsTimed :
    (now : ℕ) (p : Payout) (s : PayoutStatus) (reason code : String)
    → IsTimed p
    → IsTimed (apply_status now p s reason code)
unfolding apply_status
apply_status-IsTimed now p s reason code h = ground arith

merge_status-IsTimed :
    (env : Env) (p : Payout) (out : PayoutStatusOutput)
    → IsTimed p
    → IsTimed (merge_status env p out)
unfolding merge_status
merge_status-IsTimed env p out h = ground arith

timed_out-IsTimed : (env : Env) (p : Payout) (e : GoError) → IsTimed (timed_out env p e)
unfolding timed_out
timed_out-IsTimed env p e = ground arith

with_status_error-IsTimed :
    (env : Env) (p : Payout) (e : GoError) → IsTimed p → IsTimed (with_status_error env p e)
unfolding with_status_error
with_status_error-IsTimed env p e h = ground arith

ruleset timed_rules = (
  keeps_rules, apply_status-IsTimed, merge_status-IsTimed, timed_out-IsTimed,
  with_status_error-IsTimed,
)

after_mark-IsTimed :
    (env : Env) (p : Payout) (o : Option GoError) → Keeps TimedEffect (after_mark env p o)
after_mark-IsTimed env p none = search keeps_rules
after_mark-IsTimed env p (some e) = search keeps_rules

settle_callback-IsTimed :
    (env : Env) (p : Payout) (d : Delivery) → Keeps TimedEffect (settle_callback env p d)
unfolding settle_callback
settle_callback-IsTimed env p delivered = search after_mark-IsTimed
settle_callback-IsTimed env p no_target = search after_mark-IsTimed
settle_callback-IsTimed env p (undelivered e) = search keeps_rules

deliver_to-IsTimed :
    (env : Env) (p : Payout) (event : String) (r : Result (String × String))
    (next : Delivery → Run Effect Payout)
    → IsTimed p
    → ((d : Delivery) → Keeps TimedEffect (next d))
    → Keeps TimedEffect (deliver_to env p event r next)
unfolding deliver_to
deliver_to-IsTimed env p event (err e) next t h = h (undelivered e)
deliver_to-IsTimed env p event (ok target) next t h = search keeps_rules

try_send-IsTimed :
    (env : Env) (p : Payout) → IsTimed p → Keeps TimedEffect (try_send_final_callback env p)
unfolding try_send_final_callback deliver
try_send-IsTimed env p t = search (keeps_rules, deliver_to-IsTimed, settle_callback-IsTimed)

save-IsTimed : (env : Env) (p : Payout) → IsTimed p → Keeps TimedEffect (save_and_announce env p)
unfolding save_and_announce
save-IsTimed env p h = search (keeps_rules, try_send-IsTimed) depth 9

refresh_answered-IsTimed :
    (env : Env) (max_age : ℕ) (p : Payout) (r : Result PayoutStatusOutput)
    → IsTimed p
    → Keeps TimedEffect (refresh_answered env max_age p r)
unfolding refresh_answered
refresh_answered-IsTimed env max_age p (err e) t = search (timed_rules, try_send-IsTimed) depth 9
refresh_answered-IsTimed env max_age p (ok out) t = search (timed_rules, save-IsTimed) depth 9

refresh_with-IsTimed :
    (env : Env) (max_age : ℕ) (p : Payout) (c : Result PayoutProviderClient)
    → IsTimed p
    → Keeps TimedEffect (refresh_with env max_age p c)
unfolding refresh_with
refresh_with-IsTimed env max_age p (err e) t = search keeps_rules
refresh_with-IsTimed env max_age p (ok a) t = search refresh_answered-IsTimed

-- From a payout that has its time if it is settled, a refresh writes and announces only such
-- payouts: a Success with its completed_at, a Failed with its failed_at. A payout that is settled
-- is left alone: its refresh has no effects and returns it.
pub refresh_payout-IsTimed :
    (env : Env) (max_age : ℕ) (p : Payout)
    → IsTimed p
    → Keeps TimedEffect (refresh_payout env max_age p)
      × ((is_final p.status ≡ false)
          ⊎ (((refresh_payout env max_age p).effects ≡ [])
              × ((refresh_payout env max_age p).outcome ≡ ok (p, none))))
unfolding refresh_payout
refresh_payout-IsTimed env max_age p t = (search (keeps_rules, refresh_with-IsTimed), ground arith)
