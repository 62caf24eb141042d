-- ===== src/Payout/Create/Order.antt =====
-- In what order a creation acts: lookups, then the row, then what is about the row.
use gtd_api.Prelude.{◌≡◌, true, false, List, [], ◌∷◌, ◌++◌, All, arith}
use gtd_api.Prelude.Int.{◌≤ℤ◌, add64}
use gtd_api.Errors.{GoError, Result, ok, err}
use gtd_api.Run.{Run}
use gtd_api.Run.Keeps.{Keeps, keeps_rules}
use gtd_api.Payout.Model.{Payout, PayoutInquiry, PayoutInquiryOutput, processing}
use gtd_api.Payout.Store.{
  Env, Effect, PayoutProviderClient, updated, pay_called, posted, marked_sent, attempt_counted,
  inserted, inquiry_called, inquiry_inserted,
}
use gtd_api.Payout.Request.{resolve_min_amount}
use gtd_api.Payout.Inquiry.{
  Lookup, run_inquiry, inquire_with, inquire_each, after_inquiry, stored, inquiry_input,
}
use gtd_api.Payout.Transfer.{OnTransfer}

-- A new payout waits, what is sent and the fee are the total, and what is sent reaches the
-- channel's minimum.
pub record IsFunded (env : Env) (p : Payout) : Type 0 where
  pub waiting : p.status ≡ processing
  pub adds_up : add64 p.send_amount p.fee ≡ p.total_amount
  pub reaches : resolve_min_amount env p.method_type p.channel_code ≤ℤ p.send_amount

-- Lookups come first, then the row is inserted, and all that follows is about that row.
abbrev pub InsertsFirst : Env → List Effect → Type 0
InsertsFirst env [] = Unit
InsertsFirst env (inquiry_called code ∷ es) = InsertsFirst env es
InsertsFirst env (inquiry_inserted q ∷ es) = InsertsFirst env es
InsertsFirst env (inserted p ∷ es) = IsFunded env p × All (OnTransfer p) es
InsertsFirst env (_ ∷ es) = ◌≡◌ true false

abbrev pub IsInquiry : Effect → Type 0
IsInquiry (inquiry_called code) = Unit
IsInquiry (inquiry_inserted q) = Unit
IsInquiry _ = ◌≡◌ true false

pub InsertsFirst-append :
    (env : Env) (es later : List Effect)
    → All IsInquiry es
    → InsertsFirst env later
    → InsertsFirst env (es ++ later)
InsertsFirst-append env [] later h k = k
InsertsFirst-append env (inquiry_called code ∷ es) later h k =
    InsertsFirst-append env es later h.1 k
InsertsFirst-append env (inquiry_inserted q ∷ es) later h k = InsertsFirst-append env es later h.1 k
InsertsFirst-append env (inserted q ∷ es) later h k = ground arith
InsertsFirst-append env (updated q ∷ es) later h k = ground arith
InsertsFirst-append env (pay_called c i a ∷ es) later h k = ground arith
InsertsFirst-append env (posted u e q ∷ es) later h k = ground arith
InsertsFirst-append env (marked_sent q ∷ es) later h k = ground arith
InsertsFirst-append env (attempt_counted q ∷ es) later h k = ground arith

pub inquiries_only : (env : Env) (es : List Effect) → All IsInquiry es → InsertsFirst env es
inquiries_only env [] h = tt
inquiries_only env (inquiry_called code ∷ es) h = inquiries_only env es h.1
inquiries_only env (inquiry_inserted q ∷ es) h = inquiries_only env es h.1
inquiries_only env (inserted q ∷ es) h = ground arith
inquiries_only env (updated q ∷ es) h = ground arith
inquiries_only env (pay_called c i a ∷ es) h = ground arith
inquiries_only env (posted u e q ∷ es) h = ground arith
inquiries_only env (marked_sent q ∷ es) h = ground arith
inquiries_only env (attempt_counted q ∷ es) h = ground arith

stored-IsInquiry : (r : Result PayoutInquiry) → Keeps IsInquiry (stored r)
stored-IsInquiry (ok q) = record { all = (tt, tt) }
stored-IsInquiry (err e) = search keeps_rules

after_inquiry-IsInquiry :
    (env : Env) (again : GoError → Run Effect PayoutInquiry) (l : Lookup) (a : PayoutProviderClient)
    (r : Result PayoutInquiryOutput)
    → ((e : GoError) → Keeps IsInquiry (again e))
    → Keeps IsInquiry (after_inquiry env again l a r)
unfolding after_inquiry
after_inquiry-IsInquiry env again l a (ok out) h = search stored-IsInquiry
after_inquiry-IsInquiry env again l a (err e) h = search keeps_rules

inquire_each-IsInquiry :
    (env : Env) (l : Lookup) (x : GoError) (adapters : List PayoutProviderClient)
    → Keeps IsInquiry (inquire_each env l x adapters)
unfolding inquire_each
inquire_each-IsInquiry env l x [] = search keeps_rules
inquire_each-IsInquiry env l x (a ∷ rest) = record {
  all = (
    tt,
    (after_inquiry-IsInquiry env (λ e. inquire_each env l e rest) l a
        (a.inquiry (inquiry_input env l)) (λ e. inquire_each-IsInquiry env l e rest)).all,
  );
}

inquire_with-IsInquiry :
    (env : Env) (l : Lookup) (r : Result (List PayoutProviderClient))
    → Keeps IsInquiry (inquire_with env l r)
unfolding inquire_with
inquire_with-IsInquiry env l (err e) = search keeps_rules
inquire_with-IsInquiry env l (ok adapters) = search inquire_each-IsInquiry

pub run_inquiry-IsInquiry : (env : Env) (l : Lookup) → Keeps IsInquiry (run_inquiry env l)
unfolding run_inquiry
run_inquiry-IsInquiry env l = search inquire_with-IsInquiry
