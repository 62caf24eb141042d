-- ===== src/Payout/Status/Confirmed.antt =====
-- Where the status of a refreshed payout comes from.
use gtd_api.Prelude.{
  ℕ, String, ◌≡◌, refl, sym, subst, true, false, Option, none, some, arith, if◌then◌else◌,
}
use gtd_api.Errors.{GoError, Result, ok, err}
use gtd_api.Run.Returns.{Returns, returns_rules}
use gtd_api.Payout.Model.{Payout, PayoutStatus, processing, failed, is_final, PayoutStatusOutput}
use gtd_api.Payout.Store.{Env, PayoutProviderClient, payout_router_get}
use gtd_api.Payout.Callback.{
  Delivery, delivered, no_target, undelivered, try_send_final_callback, deliver, deliver_to,
  settle_callback, after_mark,
}
use gtd_api.Payout.Status.{
  refresh_payout, refresh_with, refresh_answered, save_and_announce, apply_status, merge_status,
  timed_out, with_status_error, status_input, is_expired, payout_or, and_no_error,
}

-- The status that a refresh leaves, whether it fails or not: it is the payout's, or the one that
-- the payout's provider answers (Processing for any answer beside Success and Failed), or Failed
-- where the provider cannot answer and the payout is older than the limit.
pub data IsConfirmed (env : Env) (max_age : ℕ) (p : Payout) (s : PayoutStatus) : Type 0 where
  kept : s ≡ p.status → IsConfirmed env max_age p s
  answered :
      (a : PayoutProviderClient) (out : PayoutStatusOutput)
      → payout_router_get env.clients p.provider ≡ ok a
      → a.status (status_input p) ≡ ok out
      → s ≡ (if is_final out.status then out.status else processing)
      → IsConfirmed env max_age p s
  expired :
      (a : PayoutProviderClient) (e : GoError)
      → payout_router_get env.clients p.provider ≡ ok a
      → a.status (status_input p) ≡ err e
      → is_expired env.now max_age p ≡ true
      → s ≡ failed
      → IsConfirmed env max_age p s

abbrev Has : PayoutStatus → Result Payout → Type 0
Has s (ok q) = q.status ≡ s
Has s (err e) = Unit

-- The status of the payout that the caller's pointer shows, where the refresh came from `p`.
abbrev pub LeavesStatus : (PayoutStatus → Type 0) → Result (Payout × Option GoError) → Type 0
LeavesStatus P (ok answer) = P answer.0.status
LeavesStatus P (err e) = ◌≡◌ true false

after_mark-Has :
    (env : Env) (p : Payout) (o : Option GoError) → Returns (Has p.status) (after_mark env p o)
after_mark-Has env p none = search returns_rules
after_mark-Has env p (some e) = search returns_rules

settle_callback-Has :
    (env : Env) (p : Payout) (d : Delivery) → Returns (Has p.status) (settle_callback env p d)
unfolding settle_callback
settle_callback-Has env p delivered = search after_mark-Has
settle_callback-Has env p no_target = search after_mark-Has
settle_callback-Has env p (undelivered e) = search returns_rules

deliver_to-Has :
    (env : Env) (p : Payout) (event : String) (r : Result (String × String))
    → Returns (Has p.status) (deliver_to env p event r (settle_callback env p))
unfolding deliver_to
deliver_to-Has env p event (err e) = search settle_callback-Has
deliver_to-Has env p event (ok target) = search (returns_rules, settle_callback-Has)

try_send-Has : (env : Env) (p : Payout) → Returns (Has p.status) (try_send_final_callback env p)
unfolding try_send_final_callback deliver
try_send-Has env p = search (returns_rules, deliver_to-Has)

no_error-Leaves :
    (P : PayoutStatus → Type 0) (p : Payout) (o : Result Payout)
    → Has p.status o
    → P p.status
    → P (payout_or p o).status
no_error-Leaves P p (ok q) h k = subst P (sym h) k
no_error-Leaves P p (err e) h k = k

and_no_error-Leaves :
    (P : PayoutStatus → Type 0) (env : Env) (p : Payout)
    → P p.status
    → Returns (LeavesStatus P) (and_no_error p (try_send_final_callback env p))
and_no_error-Leaves P env p k = record {
  holds = no_error-Leaves P p (try_send_final_callback env p).outcome (try_send-Has env p).holds k;
}

save-Leaves :
    (P : PayoutStatus → Type 0) (env : Env) (p : Payout)
    → P p.status
    → Returns (LeavesStatus P) (save_and_announce env p)
unfolding save_and_announce
save-Leaves P env p k = search (returns_rules, and_no_error-Leaves) depth 9

apply_status-status :
    (now : ℕ) (p : Payout) (s : PayoutStatus) (reason code : String)
    → (apply_status now p s reason code).status ≡ (if is_final s then s else processing)
unfolding apply_status
apply_status-status now p s reason code = ground arith

kept-Leaves :
    (env : Env) (max_age : ℕ) (p q : Payout) (e : Option GoError)
    → q.status ≡ p.status
    → LeavesStatus (IsConfirmed env max_age p) (ok (q, e))
kept-Leaves env max_age p q e same = kept same

expired_status :
    (env : Env) (max_age : ℕ) (p : Payout) (a : PayoutProviderClient) (e : GoError) (q : Payout)
    → payout_router_get env.clients p.provider ≡ ok a
    → a.status (status_input p) ≡ err e
    → is_expired env.now max_age p ≡ true
    → q.status ≡ failed
    → IsConfirmed env max_age p q.status
expired_status env max_age p a e q found answer late same = expired a e found answer late same

refresh_answered-IsConfirmed :
    (env : Env) (max_age : ℕ) (p : Payout) (a : PayoutProviderClient)
    (r : Result PayoutStatusOutput)
    → payout_router_get env.clients p.provider ≡ ok a
    → a.status (status_input p) ≡ r
    → Returns (LeavesStatus (IsConfirmed env max_age p)) (refresh_answered env max_age p r)
unfolding refresh_answered timed_out with_status_error
refresh_answered-IsConfirmed env max_age p a (err e) found answer =
    search
      (
        returns_rules,
        and_no_error-Leaves,
        kept-Leaves,
        expired_status env max_age p a e (timed_out env p e) found answer,
      )
      depth 9
refresh_answered-IsConfirmed env max_age p a (ok out) found answer =
    save-Leaves (IsConfirmed env max_age p) env _ (
      answered a out found answer (
        apply_status-status env.now (merge_status env p out) out.status out.failed_reason
          out.failed_code))

refresh_with-IsConfirmed :
    (env : Env) (max_age : ℕ) (p : Payout) (c : Result PayoutProviderClient)
    → payout_router_get env.clients p.provider ≡ c
    → Returns (LeavesStatus (IsConfirmed env max_age p)) (refresh_with env max_age p c)
unfolding refresh_with
refresh_with-IsConfirmed env max_age p (err e) found = search (returns_rules, kept-Leaves)
refresh_with-IsConfirmed env max_age p (ok a) found =
    refresh_answered-IsConfirmed env max_age p a (a.status (status_input p)) found refl

-- A refresh always returns, and the status that it leaves is confirmed: it is the one that the
-- payout had, or the one that the payout's provider answered (Processing for any answer beside
-- Success and Failed), or Failed, where the provider's answer is an error and the payout is older
-- than a positive limit.
pub refresh_payout-IsConfirmed :
    (env : Env) (max_age : ℕ) (p : Payout)
    → LeavesStatus (IsConfirmed env max_age p) (refresh_payout env max_age p).outcome
unfolding refresh_payout
refresh_payout-IsConfirmed env max_age p =
    let r : Returns (LeavesStatus (IsConfirmed env max_age p)) (refresh_payout env max_age p) =
      search (returns_rules, kept-Leaves, refresh_with-IsConfirmed) in
    r.holds
