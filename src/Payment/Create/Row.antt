-- ===== src/Payment/Create/Row.antt =====
-- The row that a creation leaves in the table, beside the payment that it returns.
use gtd_api.Prelude.{
  ℕ, zero, suc, ◌+◌, ◌≡◌, refl, ap, ◌∙◌, Bool, Option, none, some, List, [], ◌∷◌, ◌++◌, All, length,
  arith, ==_iff,
}
use gtd_api.Errors.{GoError, no_cause, Result, ok, err}
use gtd_api.Client.{Client}
use gtd_api.Payment.Model.{
  Payment, pending, PaymentMethod, MethodProviderBinding, PaymentCreateResponse,
}
use gtd_api.Payment.Store.{
  Env, Effect, inserted, updated, create_logged, create_called, notified_created, notified_changed,
  cancel_called, callback_enqueued, recon_opened, recon_resolved, apply_effects, scan_inserted,
  update_row, insert_row, update_columns,
}
use gtd_api.Payment.Fee.{Float64}
use gtd_api.Payment.Request.{ValidRequest}
use gtd_api.Payment.Selector.{next}
use gtd_api.Payment.Fallback.{
  Order, Attempts, accepted, attempt, ask, advance, after_attempt, fallback,
}
use gtd_api.Payment.Create.{
  Catalog, order_of, complete, finish_create, create_inserted, create_selected, after_insertion,
  build_payment,
}
use gtd_api.Payment.Insert.{insert_loop, with_ids}
use gtd_api.Payment.Insert.Retry.{InsertFits, insert_loop-fits}

-- An effect that writes no row of the table.
abbrev pub IsQuiet : Effect → Type 0
IsQuiet (inserted p) = ⊥
IsQuiet (updated p) = ⊥
IsQuiet _ = Unit

append-IsQuiet : (xs ys : List Effect) → All IsQuiet xs → All IsQuiet ys → All IsQuiet (xs ++ ys)
append-IsQuiet [] ys hx hy = hy
append-IsQuiet (x ∷ xs) ys hx hy = (hx.0, append-IsQuiet xs ys hx.1 hy)

attempt-IsQuiet : (o : Order) (b : MethodProviderBinding) → All IsQuiet (attempt o b).0
unfolding attempt ask
attempt-IsQuiet o b = ground arith

advance-IsQuiet :
    (go : MethodProviderBinding → Attempts) (b : MethodProviderBinding) (e : GoError)
    (following : Option MethodProviderBinding)
    → ((n : MethodProviderBinding) → All IsQuiet (go n).0)
    → All IsQuiet (advance go b e following).0
advance-IsQuiet go b e none h = tt
advance-IsQuiet go b e (some n) h = h n

after_attempt-IsQuiet :
    (go : MethodProviderBinding → Attempts) (b : MethodProviderBinding)
    (following : Option MethodProviderBinding) (r : Result PaymentCreateResponse)
    → ((n : MethodProviderBinding) → All IsQuiet (go n).0)
    → All IsQuiet (after_attempt go b following r).0
after_attempt-IsQuiet go b following (ok response) h = tt
after_attempt-IsQuiet go b following (err e) h = ground (arith, advance-IsQuiet go b e following h)

fallback-IsQuiet :
    (fuel : ℕ) (o : Order) (b : MethodProviderBinding) → All IsQuiet (fallback fuel o b).0
unfolding fallback
fallback-IsQuiet zero o b = tt
fallback-IsQuiet (suc fuel) o b =
    let rest =
      after_attempt (λ n. fallback fuel o n) b (next o.env.clients o.bindings b) (attempt o b).1 in
    append-IsQuiet (attempt o b).0 rest.0 (attempt-IsQuiet o b) (
      after_attempt-IsQuiet (λ n. fallback fuel o n) b (next o.env.clients o.bindings b)
        (attempt o b).1 (λ n. fallback-IsQuiet fuel o n))

apply_effects-quiet :
    (now : ℕ) (es rest : List Effect) (rows : List Payment)
    → All IsQuiet es
    → apply_effects now (es ++ rest) rows ≡ apply_effects now rest rows
unfolding apply_effects
apply_effects-quiet now [] rest rows h = refl
apply_effects-quiet now (inserted p ∷ es) rest rows h = absurd h.0
apply_effects-quiet now (updated p ∷ es) rest rows h = absurd h.0
apply_effects-quiet now (create_logged q g c ∷ es) rest rows h =
    apply_effects-quiet now es rest rows h.1
apply_effects-quiet now (create_called q r ∷ es) rest rows h =
    apply_effects-quiet now es rest rows h.1
apply_effects-quiet now (cancel_called q p t ∷ es) rest rows h =
    apply_effects-quiet now es rest rows h.1
apply_effects-quiet now (notified_created p ∷ es) rest rows h =
    apply_effects-quiet now es rest rows h.1
apply_effects-quiet now (notified_changed p ∷ es) rest rows h =
    apply_effects-quiet now es rest rows h.1
apply_effects-quiet now (callback_enqueued p e ∷ es) rest rows h =
    apply_effects-quiet now es rest rows h.1
apply_effects-quiet now (recon_opened r ∷ es) rest rows h = apply_effects-quiet now es rest rows h.1
apply_effects-quiet now (recon_resolved p s r ∷ es) rest rows h =
    apply_effects-quiet now es rest rows h.1

-- What an insertion keeps of the payment that is inserted.
insert_loop-keeps :
    (rounds i : ℕ) (env : Env) (p q : Payment) (last : GoError)
    → insert_loop rounds i env p last ≡ ok q
    → (q.provider ≡ p.provider) × (q.status ≡ p.status)
insert_loop-keeps rounds i env p q last made = fits (insert_loop-fits rounds i env p last) made
  where
    fits :
        {r : Result Payment}
        → InsertFits rounds i env p last r
        → r ≡ ok q
        → (q.provider ≡ p.provider) × (q.status ≡ p.status)
    fits {r = ok x} (k, row, below, answered, same) e =
        let same' : q ≡ scan_inserted (with_ids env (i + k) p) row = cc in
        unfold scan_inserted with_ids in
        (ap (λ (y : Payment). y.provider) same', ap (λ (y : Payment). y.status) same')
    fits {r = err x} h e = cc

module _ (F : Float64) where
  open F use {Real}

  inserted-built :
      (c : Catalog Real) (v : ValidRequest) (client : Client) (sandbox : Bool)
      (m : PaymentMethod Real) (b : MethodProviderBinding) (p : Payment)
      → insert_loop 5 0 c.env (build_payment F c.env.now v client sandbox m b) no_cause ≡ ok p
      → (p.provider ≡ b.provider) × (p.status ≡ pending)
  unfolding build_payment
  inserted-built c v client sandbox m b p made =
      insert_loop-keeps 5 0 c.env (build_payment F c.env.now v client sandbox m b) p no_cause made

  finish_accepted :
      (c : Catalog Real) (m : PaymentMethod Real) (p : Payment) (b : MethodProviderBinding)
      (response : PaymentCreateResponse)
      → c.env.update (complete F c m p b response) ≡ none
      → (apply_effects c.env.now
            (finish_create F c m p (some (accepted b response))).effects
            (insert_row p [])
          ≡ update_columns c.env.now
              (record p { paid_at = none; cancelled_at = none })
              (complete F c m p b response)
            ∷ [])
        × ((finish_create F c m p (some (accepted b response))).outcome
            ≡ ok (complete F c m p b response))
  unfolding finish_create apply_effects
  finish_accepted c m p b response w = (
    unfold complete update_row insert_row update_columns in ground (arith, ==_iff p.id p.id),
    ground arith,
  )

  create_inserted-table :
      (c : Catalog Real) (v : ValidRequest) (client : Client) (m : PaymentMethod Real)
      (bindings : List MethodProviderBinding) (b accepting : MethodProviderBinding) (p : Payment)
      (response : PaymentCreateResponse)
      → (fallback (length bindings) (order_of F c.env v client m bindings p) b).1
        ≡ some (accepted accepting response)
      → c.env.update (complete F c m p accepting response) ≡ none
      → (apply_effects c.env.now (create_inserted F c v client m bindings b p).effects []
          ≡ update_columns c.env.now
              (record p { paid_at = none; cancelled_at = none })
              (complete F c m p accepting response)
            ∷ [])
        × ((create_inserted F c v client m bindings b p).outcome
            ≡ ok (complete F c m p accepting response))
  unfolding create_inserted apply_effects
  create_inserted-table c v client m bindings b accepting p response ended w =
      let o = order_of F c.env v client m bindings p in
      let tried = fallback (length bindings) o b in
      let r = finish_accepted c m p accepting response w in
      (
        apply_effects-quiet c.env.now tried.0 (finish_create F c m p tried.1).effects
              (insert_row p []) (fallback-IsQuiet (length bindings) o b)
            ∙ rw ended r.0,
        rw ended r.1,
      )

  -- Where the row was inserted and the database takes the write, a creation that a provider
  -- accepted leaves one row, which is Pending and has the detail of the payment that is returned.
  -- The row names the provider that was selected first, whichever accepted; the payment that is
  -- returned names the one that accepted.
  pub create_selected-provider :
      (c : Catalog Real) (v : ValidRequest) (client : Client) (sandbox : Bool)
      (m : PaymentMethod Real) (bindings : List MethodProviderBinding)
      (b accepting : MethodProviderBinding) (p : Payment) (response : PaymentCreateResponse)
      → insert_loop 5 0 c.env (build_payment F c.env.now v client sandbox m b) no_cause ≡ ok p
      → (fallback (length bindings) (order_of F c.env v client m bindings p) b).1
        ≡ some (accepted accepting response)
      → c.env.update (complete F c m p accepting response) ≡ none
      → let run = create_selected F c v client sandbox m bindings (ok b) in
        (row q : Payment) × (apply_effects c.env.now run.effects [] ≡ row ∷ [])
        × (run.outcome ≡ ok q)
        × (row.provider ≡ b.provider)
        × (q.provider ≡ accepting.provider)
        × (row.payment_detail ≡ q.payment_detail)
        × (row.status ≡ pending)
  unfolding create_selected after_insertion
  create_selected-provider c v client sandbox m bindings b accepting p response made ended w =
      let t = create_inserted-table c v client m bindings b accepting p response ended w in
      let kept = inserted-built c v client sandbox m b p made in
      (
        update_columns c.env.now (record p { paid_at = none; cancelled_at = none })
            (complete F c m p accepting response),
        complete F c m p accepting response,
        rw made t.0,
        rw made t.1,
        unfold update_columns in kept.0,
        unfold complete in refl,
        unfold update_columns in refl,
        unfold update_columns complete in kept.1,
      )
