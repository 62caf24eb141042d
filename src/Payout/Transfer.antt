-- ===== src/Payout/Transfer.antt =====
-- What a payout is about, over its submission, its refresh and its final callback.
use gtd_api.Prelude.{ℕ, String, ◌≡◌, true, false, Option, none, some, List, [], ◌∷◌, arith}
use gtd_api.Errors.{GoError, Result, ok, err}
use gtd_api.Run.{Run}
use gtd_api.Run.Keeps.{Keeps, keeps_rules}
use gtd_api.Payout.Model.{Payout, PayoutStatus, processing, PayoutExecOutput, PayoutStatusOutput}
use gtd_api.Payout.Store.{
  Env, Effect, PayoutProviderClient, pay_called, posted, marked_sent, attempt_counted, updated,
  inserted,
}
use gtd_api.Payout.Callback.{
  Delivery, delivered, no_target, undelivered, try_send_final_callback,
  try_send_processing_callback, deliver, deliver_to, settle_callback, after_mark,
}
use gtd_api.Payout.Routing.{candidates}
use gtd_api.Payout.Submit.{
  submit_with_fallback, submit_to, submit_each, after_pay, reject, accepted_by, with_submit_error,
  kept_uncertain, rejected_by, exec_input,
}
use gtd_api.Payout.Status.{
  refresh_payout, refresh_with, refresh_answered, save_and_announce, apply_status, merge_status,
  timed_out, with_status_error,
}

pub record SameTransfer (p q : Payout) : Type 0 where
  pub id : q.id ≡ p.id
  pub payout_id : q.payout_id ≡ p.payout_id
  pub reference : q.reference_id ≡ p.reference_id
  pub client : q.client_id ≡ p.client_id
  pub method : q.method_type ≡ p.method_type
  pub channel : q.channel_code ≡ p.channel_code
  pub account : q.account_number ≡ p.account_number
  pub name : q.account_name ≡ p.account_name
  pub amount : q.amount ≡ p.amount
  pub sent : q.send_amount ≡ p.send_amount
  pub total : q.total_amount ≡ p.total_amount
  pub payer : q.fee_paid_by ≡ p.fee_paid_by
  pub created : q.created_at ≡ p.created_at

-- Every row, every event and every request to pay is about the same transfer, and no row is inserted.
abbrev pub OnTransfer : Payout → Effect → Type 0
OnTransfer p (updated q) = SameTransfer p q
OnTransfer p (posted url event q) = SameTransfer p q
OnTransfer p (pay_called code input answer) =
    (input.partner_ref ≡ p.payout_id)
    × (input.channel_code ≡ p.channel_code)
    × (input.account_number ≡ p.account_number)
    × (input.amount ≡ p.send_amount)
OnTransfer p (marked_sent id) = id ≡ p.id
OnTransfer p (attempt_counted id) = id ≡ p.id
OnTransfer p (inserted q) = ◌≡◌ true false
OnTransfer p _ = Unit

accepted_by-SameTransfer :
    (env : Env) (p q : Payout) (a : PayoutProviderClient) (out : PayoutExecOutput)
    → SameTransfer p q
    → SameTransfer p (accepted_by env q a out)
unfolding accepted_by
accepted_by-SameTransfer env p q a out h = ground arith

with_submit_error-SameTransfer :
    (env : Env) (p q : Payout) (e : GoError)
    → SameTransfer p q
    → SameTransfer p (with_submit_error env q e)
unfolding with_submit_error
with_submit_error-SameTransfer env p q e h = ground arith

kept_uncertain-SameTransfer :
    (env : Env) (p q : Payout) (a : PayoutProviderClient) (e : GoError)
    → SameTransfer p q
    → SameTransfer p (kept_uncertain env q a e)
unfolding kept_uncertain with_submit_error
kept_uncertain-SameTransfer env p q a e h = ground arith

rejected_by-SameTransfer :
    (env : Env) (p q : Payout) (a : PayoutProviderClient) (e : GoError)
    → SameTransfer p q
    → SameTransfer p (rejected_by env q a e)
unfolding rejected_by with_submit_error
rejected_by-SameTransfer env p q a e h = ground arith

apply_status-SameTransfer :
    (now : ℕ) (p q : Payout) (s : PayoutStatus) (reason code : String)
    → SameTransfer p q
    → SameTransfer p (apply_status now q s reason code)
unfolding apply_status
apply_status-SameTransfer now p q s reason code h = ground arith

merge_status-SameTransfer :
    (env : Env) (p q : Payout) (out : PayoutStatusOutput)
    → SameTransfer p q
    → SameTransfer p (merge_status env q out)
unfolding merge_status
merge_status-SameTransfer env p q out h = ground arith

timed_out-SameTransfer :
    (env : Env) (p q : Payout) (e : GoError) → SameTransfer p q → SameTransfer p (timed_out env q e)
unfolding timed_out with_status_error
timed_out-SameTransfer env p q e h = ground arith

with_status_error-SameTransfer :
    (env : Env) (p q : Payout) (e : GoError)
    → SameTransfer p q
    → SameTransfer p (with_status_error env q e)
unfolding with_status_error
with_status_error-SameTransfer env p q e h = ground arith

as_processing-SameTransfer :
    (p q : Payout) → SameTransfer p q → SameTransfer p (record q { status = processing })
as_processing-SameTransfer p q h = ground arith

SameTransfer-refl : (p : Payout) → SameTransfer p p
SameTransfer-refl p = ground arith

ruleset transfer_rules = (
  keeps_rules, accepted_by-SameTransfer, with_submit_error-SameTransfer,
  kept_uncertain-SameTransfer, rejected_by-SameTransfer, apply_status-SameTransfer,
  merge_status-SameTransfer, timed_out-SameTransfer, with_status_error-SameTransfer,
  as_processing-SameTransfer,
)

after_mark-OnTransfer :
    (env : Env) (p q : Payout) (o : Option GoError)
    → SameTransfer p q
    → Keeps (OnTransfer p) (after_mark env q o)
after_mark-OnTransfer env p q none h = record { all = (h.id, tt) }
after_mark-OnTransfer env p q (some e) h = search keeps_rules

settle_callback-OnTransfer :
    (env : Env) (p q : Payout) (d : Delivery)
    → SameTransfer p q
    → Keeps (OnTransfer p) (settle_callback env q d)
unfolding settle_callback
settle_callback-OnTransfer env p q delivered h = search after_mark-OnTransfer
settle_callback-OnTransfer env p q no_target h = search after_mark-OnTransfer
settle_callback-OnTransfer env p q (undelivered e) h = record { all = (h.id, tt) }

deliver_to-OnTransfer :
    (env : Env) (p q : Payout) (event : String) (r : Result (String × String))
    (next : Delivery → Run Effect Payout)
    → SameTransfer p q
    → ((d : Delivery) → Keeps (OnTransfer p) (next d))
    → Keeps (OnTransfer p) (deliver_to env q event r next)
unfolding deliver_to
deliver_to-OnTransfer env p q event (err e) next s h = h (undelivered e)
deliver_to-OnTransfer env p q event (ok target) next s h = search keeps_rules

try_send-OnTransfer :
    (env : Env) (p q : Payout)
    → SameTransfer p q
    → Keeps (OnTransfer p) (try_send_final_callback env q)
unfolding try_send_final_callback deliver
try_send-OnTransfer env p q h =
    search (keeps_rules, deliver_to-OnTransfer, settle_callback-OnTransfer)

reject-OnTransfer :
    (env : Env) (p q : Payout) (a : PayoutProviderClient) (e : GoError)
    → SameTransfer p q
    → Keeps (OnTransfer p) (reject env q a e)
unfolding reject
reject-OnTransfer env p q a e h = search (transfer_rules, try_send-OnTransfer) depth 9

after_pay-OnTransfer :
    (env : Env) (again : Payout → Run Effect Payout) (p q : Payout) (a : PayoutProviderClient)
    (r : Result PayoutExecOutput)
    → SameTransfer p q
    → ((x : Payout) → SameTransfer p x → Keeps (OnTransfer p) (again x))
    → Keeps (OnTransfer p) (after_pay env again q a r)
unfolding after_pay
after_pay-OnTransfer env again p q a (ok out) h k = search transfer_rules
after_pay-OnTransfer env again p q a (err e) h k =
    search (transfer_rules, reject-OnTransfer) depth 9

exec_input-OnTransfer :
    (p q : Payout) (code : String) (r : Result PayoutExecOutput)
    → SameTransfer p q
    → OnTransfer p (pay_called code (exec_input q) r)
unfolding exec_input
exec_input-OnTransfer p q code r h = (h.payout_id, h.channel, h.account, h.sent)

pub submit_each-OnTransfer :
    (env : Env) (p q : Payout) (adapters : List PayoutProviderClient)
    → SameTransfer p q
    → Keeps (OnTransfer p) (submit_each env adapters q)
unfolding submit_each
submit_each-OnTransfer env p q [] h = search transfer_rules
submit_each-OnTransfer env p q (a ∷ rest) h =
    let answer = a.pay (exec_input q) in
    record {
      all = (
        exec_input-OnTransfer p q a.code answer h,
        (after_pay-OnTransfer env (λ x. submit_each env rest x) p q a answer h
            (λ x k. submit_each-OnTransfer env p x rest k)).all,
      );
    }

submit_to-OnTransfer :
    (env : Env) (p q : Payout) (r : Result (List PayoutProviderClient))
    → SameTransfer p q
    → Keeps (OnTransfer p) (submit_to env r q)
unfolding submit_to
submit_to-OnTransfer env p q (err e) h = search keeps_rules
submit_to-OnTransfer env p q (ok adapters) h = submit_each-OnTransfer env p q adapters h

pub submit-OnTransfer : (env : Env) (p : Payout) → Keeps (OnTransfer p) (submit_with_fallback env p)
unfolding submit_with_fallback
submit-OnTransfer env p =
    submit_to-OnTransfer env p p (candidates env p.method_type p.channel_code) (SameTransfer-refl p)

pub processing_callback-OnTransfer :
    (env : Env) (p : Payout) → Keeps (OnTransfer p) (try_send_processing_callback env p)
unfolding try_send_processing_callback deliver
processing_callback-OnTransfer env p =
    search (keeps_rules, deliver_to-OnTransfer, SameTransfer-refl)

save-OnTransfer :
    (env : Env) (p q : Payout) → SameTransfer p q → Keeps (OnTransfer p) (save_and_announce env q)
unfolding save_and_announce
save-OnTransfer env p q h = search (keeps_rules, try_send-OnTransfer) depth 9

refresh_answered-OnTransfer :
    (env : Env) (max_age : ℕ) (p : Payout) (r : Result PayoutStatusOutput)
    → Keeps (OnTransfer p) (refresh_answered env max_age p r)
unfolding refresh_answered
refresh_answered-OnTransfer env max_age p (err e) =
    search (transfer_rules, SameTransfer-refl, try_send-OnTransfer) depth 9
refresh_answered-OnTransfer env max_age p (ok out) =
    search (transfer_rules, SameTransfer-refl, save-OnTransfer) depth 9

refresh_with-OnTransfer :
    (env : Env) (max_age : ℕ) (p : Payout) (c : Result PayoutProviderClient)
    → Keeps (OnTransfer p) (refresh_with env max_age p c)
unfolding refresh_with
refresh_with-OnTransfer env max_age p (err e) = search keeps_rules
refresh_with-OnTransfer env max_age p (ok a) = search refresh_answered-OnTransfer

pub refresh-OnTransfer :
    (env : Env) (max_age : ℕ) (p : Payout) → Keeps (OnTransfer p) (refresh_payout env max_age p)
unfolding refresh_payout
refresh-OnTransfer env max_age p = search (keeps_rules, refresh_with-OnTransfer)

-- What a payout is about never changes. Its submission, its refresh and its final callback write
-- and announce only rows with the id, the client, the recipient, the amounts (amount, send_amount
-- and total_amount) and the payer of the fee that it started with; and each provider is asked to
-- pay its send_amount to its account under its payout_id.
pub payout-SameTransfer :
    (env : Env) (max_age : ℕ) (p : Payout)
    → Keeps (OnTransfer p) (submit_with_fallback env p)
      × Keeps (OnTransfer p) (refresh_payout env max_age p)
      × Keeps (OnTransfer p) (try_send_final_callback env p)
payout-SameTransfer env max_age p = (
  submit-OnTransfer env p,
  refresh-OnTransfer env max_age p,
  try_send-OnTransfer env p p (SameTransfer-refl p),
)
