-- ===== src/Payment/Create/First.antt =====
-- What a creation does first, and the row that it inserts.
use gtd_api.Prelude.{
  ℕ, ◌≡◌, refl, sym, subst, Bool-cases, ap, ◌⊎◌, inl, inr, Bool, true, false, not, ◌&&◌, Option,
  none, some, List, [], ◌∷◌, arith,
}
use gtd_api.Prelude.Int.{pos, ltb_ℤ, leb_ℤ}
use gtd_api.Errors.{GoError, no_cause, is_no_rows, Result, ok, err}
use gtd_api.Run.{Run}
use gtd_api.Client.{Client}
use gtd_api.Payment.Model.{Payment, pending, PaymentMethod, MethodProviderBinding}
use gtd_api.Payment.Store.{Effect, Inserted, inserted, scan_inserted}
use gtd_api.Payment.Fee.{Float64, calculate_fee, compute_total}
use gtd_api.Payment.Selector.{select}
use gtd_api.Payment.Request.{ValidRequest, CreatePaymentRequest, validate}
use gtd_api.Payment.Insert.{insert_loop, with_ids}
use gtd_api.Payment.Create.{
  Catalog, check_method, build_payment, create_inserted, after_insertion, create_selected,
  create_grouped, create_for_method, create_unless_existing, create_validated, create_payment,
  rejected,
}
use gtd_api.Payment.Create.Passed.{passed, validate-positive, validate-amount, inserted_row}

module _ (F : Float64) where
  open F use {Real}

  -- The row that a creation may insert for a request of a client. The request is valid, and its
  -- reference is unknown for the client. The method is the one that the request names; it is active
  -- and not in maintenance, and the amount is positive and within its bounds. The row is Pending
  -- and has the request's amount, reference and payer of the fee, the fee of that method, the total
  -- that follows, and the provider that was selected among the method's bindings.
  pub record IsNew (c : Catalog Real) (r : CreatePaymentRequest) (client : Client) (sandbox : Bool)
      (p : Payment) : Type 0 where
    pub request : ValidRequest
    pub method : PaymentMethod Real
    pub bindings : List MethodProviderBinding
    pub binding : MethodProviderBinding
    pub missing : GoError
    pub valid : validate r ≡ ok request
    pub unknown : c.env.by_reference_id client.id request.reference_id ≡ err missing
    pub no_row : is_no_rows missing ≡ true
    pub named : c.method_by_code request.type request.code ≡ ok method
    pub bound : c.providers_by_code method.type method.code ≡ ok bindings
    pub selected : select c.env.clients bindings ≡ ok binding
    pub active : method.is_active ≡ true
    pub serviced : method.is_maintenance ≡ false
    pub positive : leb_ℤ r.amount (pos 0) ≡ false
    pub enough : (ltb_ℤ (pos 0) method.min_amount && ltb_ℤ r.amount method.min_amount) ≡ false
    pub bounded : (ltb_ℤ (pos 0) method.max_amount && ltb_ℤ method.max_amount r.amount) ≡ false
    pub amount : p.amount ≡ r.amount
    pub reference : p.reference_id ≡ request.reference_id
    pub owner : p.client_id ≡ client.id
    pub mode : p.is_sandbox ≡ sandbox
    pub by_method : p.payment_method_id ≡ method.id
    pub by_provider : p.provider ≡ binding.provider
    pub payer : p.fee_paid_by ≡ request.fee_paid_by
    pub fee : p.fee ≡ calculate_fee F method r.amount
    pub total :
        p.total_amount
        ≡ compute_total r.amount (calculate_fee F method r.amount) request.fee_paid_by
    pub waiting : p.status ≡ pending

  abbrev pub StartsWithRow :
      Catalog Real
      → Option CreatePaymentRequest
      → Option Client
      → (sandbox : Bool) → Run Effect Payment
      → Type 0
  StartsWithRow c request client sandbox r =
      (r.effects ≡ [])
      ⊎ ((q : CreatePaymentRequest) × (cl : Client) × (p : Payment) × (rest : List Effect)
          × (request ≡ some q)
          × (client ≡ some cl)
          × (r.effects ≡ inserted p ∷ rest)
          × IsNew c q cl sandbox p)

  check_method-passed :
      (c : Catalog Real) (v : ValidRequest) (m : PaymentMethod Real)
      → check_method F c v m ≡ none
      → (not m.is_active ≡ false)
        × (m.is_maintenance ≡ false)
        × ((ltb_ℤ (pos 0) m.min_amount && ltb_ℤ v.amount m.min_amount) ≡ false)
        × ((ltb_ℤ (pos 0) m.max_amount && ltb_ℤ m.max_amount v.amount) ≡ false)
  unfolding check_method
  check_method-passed c v m h =
      let a = passed _ _ _ h in
      let b = passed _ _ _ a.1 in
      let d = passed _ _ _ b.1 in let e = passed _ _ _ d.1 in (a.0, b.0, d.0, e.0)

  module _ (c : Catalog Real) (r : CreatePaymentRequest) (client : Client) (sandbox : Bool) where
    abbrev Starts : Run Effect Payment → Type 0
    Starts run = StartsWithRow c (some r) (some client) sandbox run

    -- What the lookups of a creation have given.
    record IsLookedUp (v : ValidRequest) (m : PaymentMethod Real) : Type 0 where
      missing : GoError
      valid : validate r ≡ ok v
      unknown : c.env.by_reference_id client.id v.reference_id ≡ err missing
      no_row : is_no_rows missing ≡ true
      named : c.method_by_code v.type v.code ≡ ok m

    row-IsNew :
        (v : ValidRequest) (m : PaymentMethod Real) (bindings : List MethodProviderBinding)
        (b : MethodProviderBinding) (i : ℕ) (row : Inserted)
        → IsLookedUp v m
        → check_method F c v m ≡ none
        → c.providers_by_code m.type m.code ≡ ok bindings
        → select c.env.clients bindings ≡ ok b
        → IsNew c r client sandbox
            (scan_inserted (with_ids c.env i (build_payment F c.env.now v client sandbox m b)) row)
    unfolding build_payment scan_inserted with_ids
    row-IsNew v m bindings b i row l good bound selected =
        let k = check_method-passed c v m good in
        let a = validate-amount r v l.valid in
        record {
          request = v;
          method = m;
          bindings = bindings;
          binding = b;
          missing = l.missing;
          valid = l.valid;
          unknown = l.unknown;
          no_row = l.no_row;
          named = l.named;
          bound = bound;
          selected = selected;
          active = ground (arith, k.0);
          serviced = k.1;
          positive = rw (← a) (validate-positive r v l.valid);
          enough = rw (← a) k.2;
          bounded = rw (← a) k.3;
          amount = a;
          reference = refl;
          owner = refl;
          mode = refl;
          by_method = refl;
          by_provider = refl;
          payer = refl;
          fee = ap (calculate_fee F m) a;
          total = ap (λ n. compute_total n (calculate_fee F m n) v.fee_paid_by) a;
          waiting = refl;
        }

    after_insertion-Starts :
        (v : ValidRequest) (m : PaymentMethod Real) (bindings : List MethodProviderBinding)
        (b : MethodProviderBinding) (made : Result Payment)
        → IsLookedUp v m
        → check_method F c v m ≡ none
        → c.providers_by_code m.type m.code ≡ ok bindings
        → select c.env.clients bindings ≡ ok b
        → insert_loop 5 0 c.env (build_payment F c.env.now v client sandbox m b) no_cause ≡ made
        → Starts (after_insertion F c v client m bindings b made)
    unfolding after_insertion create_inserted
    after_insertion-Starts v m bindings b (err e) l good bound selected made = inl refl
    after_insertion-Starts v m bindings b (ok p) l good bound selected made =
        let (i, row, same) =
          inserted_row c.env (build_payment F c.env.now v client sandbox m b) p made in
        inr (
          r,
          client,
          p,
          _,
          refl,
          refl,
          refl,
          subst (IsNew c r client sandbox) (sym same)
              (row-IsNew v m bindings b i row l good bound selected),
        )

    create_selected-Starts :
        (v : ValidRequest) (m : PaymentMethod Real) (bindings : List MethodProviderBinding)
        (s : Result MethodProviderBinding)
        → IsLookedUp v m
        → check_method F c v m ≡ none
        → c.providers_by_code m.type m.code ≡ ok bindings
        → select c.env.clients bindings ≡ s
        → Starts (create_selected F c v client sandbox m bindings s)
    unfolding create_selected
    create_selected-Starts v m bindings (err e) l good bound selected = inl refl
    create_selected-Starts v m bindings (ok b) l good bound selected =
        after_insertion-Starts v m bindings b _ l good bound selected refl

    create_grouped-Starts :
        (v : ValidRequest) (m : PaymentMethod Real) (g : Result (List MethodProviderBinding))
        → IsLookedUp v m
        → check_method F c v m ≡ none
        → c.providers_by_code m.type m.code ≡ g
        → Starts (create_grouped F c v client sandbox m g)
    unfolding create_grouped
    create_grouped-Starts v m (err e) l good bound = inl refl
    create_grouped-Starts v m (ok bindings) l good bound =
        create_selected-Starts v m bindings (select c.env.clients bindings) l good bound refl

    rejected-Starts :
        (o : Option GoError) (next : Run Effect Payment)
        → (o ≡ none → Starts next)
        → Starts (rejected o next)
    rejected-Starts none next h = h refl
    rejected-Starts (some e) next h = inl refl

    create_for_method-Starts :
        (v : ValidRequest) (m : Result (PaymentMethod Real)) (e : GoError)
        → validate r ≡ ok v
        → c.env.by_reference_id client.id v.reference_id ≡ err e
        → is_no_rows e ≡ true
        → c.method_by_code v.type v.code ≡ m
        → Starts (create_for_method F c v client sandbox m)
    unfolding create_for_method
    create_for_method-Starts v (err x) e valid unknown no_row named = inl refl
    create_for_method-Starts v (ok m) e valid unknown no_row named =
        rejected-Starts (check_method F c v m) _ (λ good.
          create_grouped-Starts v m (c.providers_by_code m.type m.code)
            (record {
              missing = e;
              valid = valid;
              unknown = unknown;
              no_row = no_row;
              named = named;
            })
            good refl)

    create_unless_existing-Starts :
        (v : ValidRequest) (o : Result Payment)
        → validate r ≡ ok v
        → c.env.by_reference_id client.id v.reference_id ≡ o
        → Starts (create_unless_existing F c v client sandbox o)
    unfolding create_unless_existing
    create_unless_existing-Starts v (ok existing) valid found = inl refl
    create_unless_existing-Starts v (err e) valid found = elim (Bool-cases (is_no_rows e)) [
      | inl missing ↦
          rw missing
            (create_for_method-Starts v (c.method_by_code v.type v.code) e valid found missing refl)
      | inr broken ↦ rw broken (inl refl)
    ]

    create_validated-Starts :
        (v : Result ValidRequest) → validate r ≡ v → Starts (create_validated F c client sandbox v)
    unfolding create_validated
    create_validated-Starts (err e) h = inl refl
    create_validated-Starts (ok v) h =
        create_unless_existing-Starts v (c.env.by_reference_id client.id v.reference_id) h refl

  -- Whatever the request, the client and the answers of the outside, a creation either has no
  -- effect at all, or its first effect is the insertion of a new row for the request and the client;
  -- so no provider is asked, and nobody is told, of a payment that is not in the table. This comes
  -- only of a valid request, whose reference is unknown for the client, and whose method, looked up
  -- by the request's type and code, is active and not in maintenance, with the request's amount
  -- positive and within its bounds. The row is Pending; it has the request's amount, reference and
  -- payer of the fee, that method's fee for the amount, the total that follows from these, and the
  -- provider that is selected among the method's bindings.
  pub create_payment-starts :
      (c : Catalog Real) (request : Option CreatePaymentRequest) (client : Option Client)
      (sandbox : Bool)
      → StartsWithRow c request client sandbox (create_payment F c request client sandbox)
  unfolding create_payment
  create_payment-starts c none client sandbox = inl refl
  create_payment-starts c (some r) none sandbox = inl refl
  create_payment-starts c (some r) (some client) sandbox =
      create_validated-Starts c r client sandbox (validate r) refl
