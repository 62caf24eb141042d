-- ===== src/Payment/Tests/Creation.antt =====
-- Runs of the creation, and its theorems at them.
use gtd_api.Prelude.{
  ◌&&◌, ◌≡◌, ◌≢◌, refl, true, false, none, some, [], ◌∷◌, ◌++◌, arith, List, ◌⊎◌, length, ℕ,
}
use gtd_api.Prelude.Int.{pos, ◌≤ℤ◌, ltb_ℤ, add64}
use gtd_api.Errors.{ok, no_cause}
use gtd_api.Payment.Model.{Payment, pending, MethodProviderBinding, PaymentMethod}
use gtd_api.Payment.Store.{router_get, apply_effects}
use gtd_api.Payment.Fee.{calculate_fee, calculate_fee_bounds}
use gtd_api.Payment.Selector.{healthy, first_healthy, select, next, scan_after}
use gtd_api.Payment.Selector.Order.{IsOrdered, IsDistinct, SelectFits, select_best}
use gtd_api.Payment.Fallback.{
  Order, fallback, attempt, ask, payment_provider_error_code, is_retryable_provider_error,
  provider_request,
}
use gtd_api.Payment.Fallback.Loop.{try_each, fallback-terminates}
use gtd_api.Payment.Fallback.Charges.{Follows, accepted_by_end, fallback_charges_once}
use gtd_api.Payment.Insert.{insert_loop, with_ids}
use gtd_api.Payment.Insert.Retry.{InsertFits, insert_loop-fits}
use gtd_api.Payment.Create.{create_payment, create_selected, order_of, build_payment}
use gtd_api.Payment.Create.First.{StartsWithRow, create_payment-starts}
use gtd_api.Payment.Create.Row.{create_selected-provider}
use gtd_api.Payment.Store.{scan_inserted}
use gtd_api.Payment.Tests.{
  waiting, world, good, down, binding_a, binding_b, group, thousandths, method, catalog, shop,
  valid, request, response,
}

-- 0.7 percent of 5000 is 35; of 50001 it is 350.007, and the fee is 351.
abbrev bounded : PaymentMethod ℕ
bounded = record method { fee_min = pos 100; fee_max = pos 400 }

fee_rounded : calculate_fee thousandths method (pos 50001) ≡ pos 351
unfolding calculate_fee add64
fee_rounded = refl

calculate_fee_bounds_example :
    ((ltb_ℤ (pos 0) (pos 400) ≡ false) ⊎ (calculate_fee thousandths bounded (pos 50001) ≤ℤ pos 400))
    × ((ltb_ℤ (pos 0) (pos 100) ≡ false)
        ⊎ ((ltb_ℤ (pos 0) (pos 400) && ltb_ℤ (pos 400) (pos 100) ≡ true)
            ⊎ (pos 100 ≤ℤ calculate_fee thousandths bounded (pos 50001))))
calculate_fee_bounds_example = calculate_fee_bounds thousandths bounded (pos 50001)

group-IsOrdered : IsOrdered group
group-IsOrdered = omega arith

group-IsDistinct : IsDistinct group
group-IsDistinct = omega arith

select_best_example :
    SelectFits (world down good).clients group (select (world down good).clients group)
select_best_example = select_best (world down good).clients group group-IsOrdered

abbrev sale : Payment
sale = record waiting { payment_id = "pay-new"; partner_ref = "ptr-new" }

abbrev sale_order : Order
sale_order = record {
  env = world down good;
  method_type = method.type;
  method_code = method.code;
  request = valid;
  fee = pos 351;
  total_amount = pos 50001;
  expired_at = 900;
  client_name = "Shop";
  partner_ref = "ptr-new";
  bindings = group;
}

fallback-terminates_example :
    (pre : List MethodProviderBinding) × (post : List MethodProviderBinding) × (group
      ≡ pre ++ binding_a ∷ post)
    × (fallback (length group) sale_order binding_a ≡ try_each sale_order binding_a post)
    × ((fallback (length group) sale_order binding_a).1 ≢ none)
unfolding first_healthy healthy router_get
fallback-terminates_example = fallback-terminates sale_order binding_a group-IsDistinct refl

-- The first provider is down, and the second accepts.
second_accepts : accepted_by_end (fallback (length group) sale_order binding_a).1 ≡ 1
unfolding fallback attempt ask next scan_after healthy router_get payment_provider_error_code
    is_retryable_provider_error provider_request
second_accepts = refl

fallback_charges_once_example : Follows sale_order 2 binding_a (fallback 2 sale_order binding_a)
fallback_charges_once_example = fallback_charges_once 2 sale_order binding_a

insert_loop-fits_example :
    InsertFits 5 0
      (world good down)
      waiting
      no_cause
      (insert_loop 5 0 (world good down) waiting no_cause)
insert_loop-fits_example = insert_loop-fits 5 0 (world good down) waiting no_cause

create_payment-starts_example :
    StartsWithRow thousandths
      (catalog (world down good))
      (some request)
      (some shop)
      false
      (create_payment thousandths (catalog (world down good)) (some request) (some shop) false)
create_payment-starts_example =
    create_payment-starts thousandths (catalog (world down good)) (some request) (some shop) false

abbrev new_sale : Payment
new_sale =
    scan_inserted
      (with_ids (world down good) 0
        (build_payment thousandths 500 valid shop false method binding_a))
      (record { row_id = 8; row_created_at = 500; row_updated_at = 500 })

create_selected-provider_example :
    let run =
      create_selected thousandths
        (catalog (world down good))
        valid
        shop
        false
        method
        group
        (ok binding_a) in
    (row q : Payment) × (apply_effects 500 run.effects [] ≡ row ∷ [])
    × (run.outcome ≡ ok q)
    × (row.provider ≡ "pakailink")
    × (q.provider ≡ "bnc_direct")
    × (row.payment_detail ≡ q.payment_detail)
    × (row.status ≡ pending)
unfolding insert_loop fallback attempt ask next scan_after healthy router_get
    payment_provider_error_code is_retryable_provider_error provider_request order_of
create_selected-provider_example =
    create_selected-provider thousandths (catalog (world down good)) valid shop false method group
      binding_a binding_b new_sale response refl refl refl
