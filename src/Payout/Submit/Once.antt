-- ===== src/Payout/Submit/Once.antt =====
-- When a further provider is asked to pay.
use gtd_api.Prelude.{
  String, ◌≡◌, refl, ◌⊎◌, inl, inr, true, false, Option, none, some, List, [], ◌∷◌, ◌<◌, All, arith,
  starts_with, Bool-cases,
}
use gtd_api.Prelude.Text.{to_lower, contains}
use gtd_api.Errors.{GoError, Result, ok, err, SnapInfo, extract_snap_error}
use gtd_api.Run.{Run, return_ok, fail}
use gtd_api.Run.Keeps.{Keeps, keeps_rules}
use gtd_api.Payout.Model.{Payout, processing, PayoutExecOutput}
use gtd_api.Payout.Store.{
  Env, Effect, PayoutProviderClient, inquiry_called, inquiry_inserted, inserted, pay_called, posted,
  marked_sent, attempt_counted, updated, update_payout,
}
use gtd_api.Payout.Failure.{
  map_payout_submit_error, submit_error_with, submit_error_of, is_uncertain_payout_error,
  uncertain_info, is_retryable,
}
use gtd_api.Payout.Callback.{
  Delivery, delivered, no_target, undelivered, try_send_final_callback, deliver, deliver_to,
  settle_callback,
}
use gtd_api.Payout.Routing.{candidates}
use gtd_api.Payout.Submit.{
  submit_with_fallback, submit_to, submit_each, after_pay, reject, accepted_by, with_submit_error,
  kept_uncertain, exec_input,
}

-- The providers' answers, in their order.
abbrev pub answers : List Effect → List (Result PayoutExecOutput)
answers [] = []
answers (pay_called code input answer ∷ es) = answer ∷ answers es
answers (_ ∷ es) = answers es

-- A SNAP error that leaves no doubt that nothing is paid, and that is not about the request: no
-- HTTP status and no code of a server's error, and none of the codes and texts that end the
-- submission.
pub record IsRefusal (e : GoError) : Type 0 where
  pub info : SnapInfo
  pub recognised : extract_snap_error e ≡ some info
  pub no_server_error : info.http_status < 500
  pub certain :
      (starts_with info.response_code "500" ≡ false)
      × (starts_with info.response_code "504" ≡ false)
  pub not_about_request :
      (starts_with info.response_code "404" ≡ false)
      × (starts_with info.response_code "409" ≡ false)
      × (starts_with info.response_code "400" ≡ false)
      × (starts_with info.response_code "403" ≡ false)
  pub not_about_balance : contains (to_lower info.response_message) "insufficient" ≡ false

abbrev pub IsRefused : Result PayoutExecOutput → Type 0
IsRefused (ok out) = ◌≡◌ true false
IsRefused (err e) = IsRefusal e

-- Every answer but the last is such a refusal.
abbrev pub PaysOnce : List (Result PayoutExecOutput) → Type 0
PaysOnce [] = Unit
PaysOnce (a ∷ later) = ((later ≡ []) ⊎ IsRefused a) × PaysOnce later

refusal_of :
    (e : GoError) (info : SnapInfo)
    → extract_snap_error e ≡ some info
    → uncertain_info (some info) ≡ false
    → is_retryable (submit_error_of e info) ≡ true
    → IsRefusal e
unfolding submit_error_of
refusal_of e info same u r = record {
  info = info;
  recognised = same;
  no_server_error = ground arith;
  certain = ground arith;
  not_about_request = ground arith;
  not_about_balance = ground arith;
}

refusal_with :
    (e : GoError) (o : Option SnapInfo)
    → extract_snap_error e ≡ o
    → uncertain_info o ≡ false
    → is_retryable (submit_error_with e o) ≡ true
    → IsRefusal e
unfolding submit_error_with
refusal_with e none same u r = ground arith
refusal_with e (some info) same u r = refusal_of e info same u r

refusal :
    (e : GoError)
    → is_uncertain_payout_error e ≡ false
    → is_retryable (map_payout_submit_error e) ≡ true
    → IsRefusal e
unfolding is_uncertain_payout_error map_payout_submit_error
refusal e u r = refusal_with e (extract_snap_error e) refl u r

abbrev IsSilent : Effect → Type 0
IsSilent (pay_called code input answer) = ◌≡◌ true false
IsSilent _ = Unit

answers-All : (es : List Effect) → All IsSilent es → answers es ≡ []
answers-All [] h = refl
answers-All (pay_called c i a ∷ es) h = ground arith
answers-All (inquiry_called c ∷ es) h = answers-All es h.1
answers-All (inquiry_inserted c ∷ es) h = answers-All es h.1
answers-All (inserted c ∷ es) h = answers-All es h.1
answers-All (updated c ∷ es) h = answers-All es h.1
answers-All (posted u e p ∷ es) h = answers-All es h.1
answers-All (marked_sent c ∷ es) h = answers-All es h.1
answers-All (attempt_counted c ∷ es) h = answers-All es h.1

settle_callback-IsSilent :
    (env : Env) (p : Payout) (d : Delivery) → Keeps IsSilent (settle_callback env p d)
unfolding settle_callback
settle_callback-IsSilent env p delivered = ground arith
settle_callback-IsSilent env p no_target = ground arith
settle_callback-IsSilent env p (undelivered e) = search keeps_rules

deliver_to-IsSilent :
    (env : Env) (p : Payout) (event : String) (r : Result (String × String))
    (next : Delivery → Run Effect Payout)
    → ((d : Delivery) → Keeps IsSilent (next d))
    → Keeps IsSilent (deliver_to env p event r next)
unfolding deliver_to
deliver_to-IsSilent env p event (err e) next h = h (undelivered e)
deliver_to-IsSilent env p event (ok target) next h = search keeps_rules

pub try_send-IsSilent : (env : Env) (p : Payout) → Keeps IsSilent (try_send_final_callback env p)
unfolding try_send_final_callback deliver
try_send-IsSilent env p = search (keeps_rules, deliver_to-IsSilent, settle_callback-IsSilent)

reject-IsSilent :
    (env : Env) (p : Payout) (a : PayoutProviderClient) (e : GoError)
    → Keeps IsSilent (reject env p a e)
unfolding reject
reject-IsSilent env p a e = search (keeps_rules, try_send-IsSilent)

quiet-PaysOnce :
    (r : Result PayoutExecOutput) (run : Run Effect Payout)
    → Keeps IsSilent run
    → PaysOnce (r ∷ answers run.effects)
quiet-PaysOnce r run k = rw (answers-All run.effects k.all) (inl refl, tt)

save-IsSilent :
    (env : Env) (q : Payout) → Keeps IsSilent (update_payout {A = Payout} env q fail (return_ok q))
save-IsSilent env q = search keeps_rules

save-PaysOnce :
    (r : Result PayoutExecOutput) (env : Env) (q : Payout)
    → PaysOnce (r ∷ answers (update_payout {A = Payout} env q fail (return_ok q)).effects)
save-PaysOnce r env q =
    quiet-PaysOnce r (update_payout env q fail (return_ok q)) (save-IsSilent env q)

after_pay-PaysOnce :
    (env : Env) (again : Payout → Run Effect Payout) (p : Payout) (a : PayoutProviderClient)
    (r : Result PayoutExecOutput)
    → ((q : Payout) → PaysOnce (answers (again q).effects))
    → PaysOnce (r ∷ answers (after_pay env again p a r).effects)
unfolding after_pay
after_pay-PaysOnce env again p a (ok out) h = save-PaysOnce (ok out) env (accepted_by env p a out)
after_pay-PaysOnce env again p a (err e) h = elim (Bool-cases (is_uncertain_payout_error e)) [
  | inl u ↦ rw u (save-PaysOnce (err e) env (kept_uncertain env p a e))
  | inr u ↦ elim (Bool-cases (is_retryable (map_payout_submit_error e))) [
    | inl r ↦ rw (u, r) (inr (refusal e u r), h (with_submit_error env p e))
    | inr r ↦ rw (u, r) (quiet-PaysOnce (err e) (reject env p a e) (reject-IsSilent env p a e))
  ]
]

submit_each-PaysOnce :
    (env : Env) (adapters : List PayoutProviderClient) (p : Payout)
    → PaysOnce (answers (submit_each env adapters p).effects)
unfolding submit_each
submit_each-PaysOnce env [] p =
    rw (answers-All _ (save-IsSilent env (record p { status = processing })).all) tt
submit_each-PaysOnce env (a ∷ rest) p =
    after_pay-PaysOnce env (λ q. submit_each env rest q) p a (a.pay (exec_input p))
      (λ q. submit_each-PaysOnce env rest q)

submit_to-PaysOnce :
    (env : Env) (r : Result (List PayoutProviderClient)) (p : Payout)
    → PaysOnce (answers (submit_to env r p).effects)
unfolding submit_to
submit_to-PaysOnce env (err e) p = tt
submit_to-PaysOnce env (ok adapters) p = submit_each-PaysOnce env adapters p

-- Whatever the providers answer to the submission of a payout, every provider that is asked, but
-- the last one, has refused for sure: its error is a recognised SNAP error with an HTTP status
-- below 500, whose code does not begin with 500, 504, 400, 403, 404 or 409 and whose message does
-- not speak of an insufficient balance. So no payout is sent to a further provider after an
-- acceptance, a timeout, a server's error or a rejection of the request.
pub submit_with_fallback-PaysOnce :
    (env : Env) (p : Payout) → PaysOnce (answers (submit_with_fallback env p).effects)
unfolding submit_with_fallback
submit_with_fallback-PaysOnce env p =
    submit_to-PaysOnce env (candidates env p.method_type p.channel_code) p
