-- ===== src/Transaction/Inquiry/Payable.antt =====
-- Which inquiries can be paid.
use gtd_api.Prelude.{
  ℕ, ◌≤◌, String, ◌≡◌, refl, sym, subst, ◌∙◌, ◌⊎◌, inl, inr, Bool, true, false, not, ◌&&◌, Option,
  none, some, List, [], ◌∷◌, ◌++◌, All, ltb, ◌==◌, str_eq, eq_iff, if◌then◌else◌, arith,
}
use gtd_api.Errors.{GoError, plain_error, Result, ok, err}
use gtd_api.Run.Keeps.{Keeps, Keeps-if, Keeps-emit, Keeps-fail, Keeps-return}
use gtd_api.Client.{Client}
use gtd_api.Ppob.Model.{
  ExtraValue, ProviderRequest, ProviderResponse, ProviderOption, PpobProviderClient,
  ProviderAttempt,
}
use gtd_api.Ppob.Attempt.{Providers}
use gtd_api.Transaction.Model.{CreateTransactionRequest, Product, DigiResponse, InquiryData}
use gtd_api.Transaction.Codes.{is_success}
use gtd_api.Transaction.Store.{Env, Effect, inquired, digi_inquired, cached}
use gtd_api.Transaction.Settle.{Handled}
use gtd_api.Transaction.CachedInquiry.{
  blank_inquiry, keep_inquiry, answered_inquiry, successful_inquiry, failed_inquiry,
  unanswered_inquiry, last_option, named_by,
}
use gtd_api.Transaction.Inquiry.{
  process_inquiry, inquire_product, inquire_unless_cached, fresh_inquiry, inquire_routed,
  inquire_options, inquire_providers, inquire_digiflazz, inquiry_request, after_inquiry_answer,
  digi_inquiry_answered, digi_inquiry_call, usable_for, ask_option, preferred,
}
use gtd_api.Transaction.Payment.{check_payment, product_matches}

-- An entry that is kept under both keys is of a success, and any other one of a failure.
abbrev HasStatus : (both : Bool) → InquiryData → Type 0
HasStatus true d = (d.status ≡ "") ⊎ (d.status ≡ "Success")
HasStatus false d = d.status ≡ "Failed"

-- What a payment of the entry is told.
abbrev pub verdict : (both : Bool) → Option GoError
verdict true = none
verdict false = some (plain_error "INVALID_TRANSACTION_TYPE")

-- An effect is one of a list.
abbrev pub IsAmong : Effect → List Effect → Type 0
IsAmong x [] = ◌≡◌ true false
IsAmong x (e ∷ es) = (e ≡ x) ⊎ IsAmong x es

module _ (env : Env) (req : CreateTransactionRequest) (client : Client) where
  -- The entry is the request's, the client's and the product's.
  record IsOwned (reference_id customer_no : String) (client_id product_id : ℕ) : Type 0 where
    reference : reference_id ≡ req.reference_id
    customer : customer_no ≡ req.customer_no
    owner : client_id ≡ client.id
    product : product_matches product_id (env.by_sku_code req.sku_code) ≡ true

  abbrev IsOf : InquiryData → Type 0
  IsOf d = IsOwned d.reference_id d.customer_no d.client_id d.product_id

  abbrev KeepsOwn : Effect → Type 0
  KeepsOwn (cached both d) = IsOf d × HasStatus both d
  KeepsOwn _ = Unit

  abbrev Own : Handled → Type 0
  Own r = Keeps KeepsOwn r

  keep-Own :
      (both : Bool) (d : InquiryData) → IsOf d → HasStatus both d → Own (keep_inquiry env both d)
  unfolding keep_inquiry
  keep-Own true d h s = record { all = ((h, s), tt) }
  keep-Own false d h s = record { all = ((h, s), tt) }

  successful-Own :
      (d : InquiryData) (opt : ProviderOption) (extra : List (String × ExtraValue))
      (r : ProviderResponse)
      → IsOf d
      → Own (keep_inquiry env true (successful_inquiry env d opt extra r))
  unfolding successful_inquiry answered_inquiry
  successful-Own d opt extra r h = keep-Own true _ h (inr refl)

  failed-Own :
      (d : InquiryData) (opt : ProviderOption) (extra : List (String × ExtraValue))
      (r : ProviderResponse)
      → IsOf d
      → Own (keep_inquiry env false (failed_inquiry env d opt extra r))
  unfolding failed_inquiry answered_inquiry
  failed-Own d opt extra r h = keep-Own false _ h refl

  named-IsOf : (d : InquiryData) (o : Option ProviderOption) → IsOf d → IsOf (named_by d o)
  named-IsOf d none h = h
  named-IsOf d (some opt) h = h

  unanswered-Own :
      (d : InquiryData) (attempts : List ProviderAttempt)
      → IsOf d
      → Own (keep_inquiry env false (unanswered_inquiry env d attempts))
  unfolding unanswered_inquiry
  unanswered-Own d attempts h =
      let k = named-IsOf d (last_option attempts) h in keep-Own false _ k refl

  answer-Own :
      (d : InquiryData) (opt : ProviderOption) (request : ProviderRequest) (again : Handled)
      (a : Result ProviderResponse)
      → IsOf d
      → Own again
      → Own (after_inquiry_answer env d opt request again a)
  unfolding after_inquiry_answer
  answer-Own d opt request again (err e) h k = k
  answer-Own d opt request again (ok r) h k =
      Keeps-if r.success _ _ (λ b. successful-Own d opt request.extra r h)
        (λ b. failed-Own d opt request.extra r h)

  ask-Own :
      (ask : PpobProviderClient → Handled) (skip : Handled) (o : Option PpobProviderClient)
      → ((c : PpobProviderClient) → Own (ask c))
      → Own skip
      → Own (ask_option ask skip o)
  ask-Own ask skip none h k = k
  ask-Own ask skip (some c) h k = h c

  providers-Own :
      (ps : Providers) (d : InquiryData) (attempts : List ProviderAttempt)
      (options : List ProviderOption)
      → IsOf d
      → Own (inquire_providers env ps req d attempts options)
  unfolding inquire_providers
  providers-Own ps d attempts [] h = unanswered-Own d attempts h
  providers-Own ps d attempts (opt ∷ rest) h =
      let request = inquiry_request env req d.transaction_id opt in
      ask-Own _ _ (usable_for req (ps.clients opt.provider_code))
        (λ c. Keeps-emit (inquired opt.provider_code request (c.inquiry request)) _ tt (
          answer-Own d opt request _ (c.inquiry request) h (
            providers-Own ps d
              (attempts
                ++ (record { provider = opt; request = request; answer = c.inquiry request } ∷ []))
              rest h)))
        (providers-Own ps d attempts rest h)

  digi-Own :
      (d : InquiryData) (a : Result DigiResponse)
      → IsOf d
      → d.status ≡ ""
      → Own (digi_inquiry_answered env d a)
  unfolding digi_inquiry_answered
  digi-Own d (err e) h s = Keeps-fail _
  digi-Own d (ok r) h s =
      Keeps-if (is_success r.rc) _ _
        (λ b.
          keep-Own true
            (record d {
              amount = r.price;
              admin = r.admin;
              customer_name = r.customer_name;
              description = r.desc;
            })
            h (inl s))
        (λ b. Keeps-fail _)

  digiflazz-Own :
      (d : InquiryData) (is_sandbox : Bool)
      → IsOf d
      → d.status ≡ ""
      → Own (inquire_digiflazz env req d is_sandbox)
  unfolding inquire_digiflazz
  digiflazz-Own d is_sandbox h s =
      Keeps-if (env.has_digiflazz is_sandbox) _ _
        (λ b.
          let c = digi_inquiry_call env req d.transaction_id is_sandbox in
          Keeps-emit (digi_inquired c) _ tt (digi-Own d c.answer h s))
        (λ b. Keeps-fail _)

  options-Own :
      (ps : Providers) (d : InquiryData) (o : Result (List ProviderOption))
      → IsOf d
      → d.status ≡ ""
      → Own (inquire_options env ps req d o)
  options-Own ps d (ok (opt ∷ rest)) h s =
      providers-Own ps d [] (preferred req.provider (opt ∷ rest)) h
  options-Own ps d (ok []) h s = digiflazz-Own d false h s
  options-Own ps d (err e) h s = digiflazz-Own d false h s

  routed-Own :
      (d : InquiryData) (is_sandbox : Bool) (o : Option (ℕ → Providers))
      → IsOf d
      → d.status ≡ ""
      → Own (inquire_routed env req d is_sandbox o)
  routed-Own d is_sandbox none h s = digiflazz-Own d is_sandbox h s
  routed-Own d is_sandbox (some router) h s =
      Keeps-if is_sandbox _ _ (λ b. digiflazz-Own d true h s)
        (λ b. options-Own (router d.product_id) d _ h s)

  fresh-Own :
      (product : Product) (is_sandbox : Bool) (o : Result String)
      → env.by_sku_code req.sku_code ≡ ok (some product)
      → Own (fresh_inquiry env req client product is_sandbox o)
  fresh-Own product is_sandbox (err e) found = Keeps-fail e
  fresh-Own product is_sandbox (ok id) found =
      let same : (product.id == product.id) ≡ true = ground arith in
      routed-Own (blank_inquiry req client product id env.end_of_day) is_sandbox env.router
        (record { reference = refl; customer = refl; owner = refl; product = rw found same }) refl

  uncached-Own :
      (product : Product) (is_sandbox : Bool) (o : Option InquiryData)
      → env.by_sku_code req.sku_code ≡ ok (some product)
      → Own (inquire_unless_cached env req client product is_sandbox o)
  uncached-Own product is_sandbox (some d) found = Keeps-return _
  uncached-Own product is_sandbox none found =
      fresh-Own product is_sandbox env.new_transaction_id found

  product-Own :
      (is_sandbox : Bool) (o : Result (Option Product))
      → env.by_sku_code req.sku_code ≡ o
      → Own (inquire_product env req client is_sandbox o)
  product-Own is_sandbox (ok (some product)) found = uncached-Own product is_sandbox _ found
  product-Own is_sandbox (ok none) found = Keeps-fail _
  product-Own is_sandbox (err e) found = Keeps-fail _

  inquiry-Own : (is_sandbox : Bool) → Own (process_inquiry env req client is_sandbox)
  unfolding process_inquiry
  inquiry-Own is_sandbox = product-Own is_sandbox (env.by_sku_code req.sku_code) refl

  kept-IsOf :
      (both : Bool) (d : InquiryData) (es : List Effect)
      → All KeepsOwn es
      → IsAmong (cached both d) es
      → IsOf d × HasStatus both d
  kept-IsOf both d [] h among = cc
  kept-IsOf both d (e ∷ es) h (inl same) = subst KeepsOwn same h.0
  kept-IsOf both d (e ∷ es) h (inr later) = kept-IsOf both d es h.1 later

  refused-status :
      (both : Bool) (d : InquiryData)
      → HasStatus both d
      → (not (str_eq d.status "") && not (str_eq d.status "Success")) ≡ not both
  refused-status true d (inl s) = rw s refl
  refused-status true d (inr s) = rw s refl
  refused-status false d s = rw s refl

  own-verdict :
      (later : Env) (pay : CreateTransactionRequest) (both : Bool) (d : InquiryData)
      → IsOf d
      → HasStatus both d
      → pay.reference_id ≡ req.reference_id
      → pay.customer_no ≡ req.customer_no
      → later.by_sku_code pay.sku_code ≡ env.by_sku_code req.sku_code
      → later.now ≤ d.expired_at
      → check_payment later pay client d ≡ verdict both
  unfolding check_payment
  own-verdict later pay both d h s ref cust prod live =
      let reference : str_eq d.reference_id pay.reference_id ≡ true =
        (eq_iff d.reference_id pay.reference_id).1 (h.reference ∙ sym ref) in
      let customer : str_eq d.customer_no pay.customer_no ≡ true =
        (eq_iff d.customer_no pay.customer_no).1 (h.customer ∙ sym cust) in
      let own = h.owner in
      let owner : (d.client_id == client.id) ≡ true = ground arith in
      let product : product_matches d.product_id (later.by_sku_code pay.sku_code) ≡ true =
        rw prod h.product in
      let fresh : ltb d.expired_at later.now ≡ false = ground arith in
      rw (reference, customer, owner, refused-status both d s, product, fresh) (same_verdict both)
    where
      same_verdict :
          (b : Bool)
          → (if not b then some (plain_error "INVALID_TRANSACTION_TYPE") else none) ≡ verdict b
      same_verdict true = refl
      same_verdict false = refl

-- An entry that an inquiry keeps in the cache decides a payment that comes before its expiry, from
-- the same client, with the same reference and customer number, and a product code that finds the
-- same product: an entry of a success, which is kept under both keys, passes the checks, and one of
-- a failure, which is kept under the transaction's key only, is refused as
-- INVALID_TRANSACTION_TYPE.
pub kept_inquiry-verdict :
    (env later : Env) (req pay : CreateTransactionRequest) (client : Client)
    (is_sandbox both : Bool) (d : InquiryData)
    → IsAmong (cached both d) (process_inquiry env req client is_sandbox).effects
    → pay.reference_id ≡ req.reference_id
    → pay.customer_no ≡ req.customer_no
    → later.by_sku_code pay.sku_code ≡ env.by_sku_code req.sku_code
    → later.now ≤ d.expired_at
    → check_payment later pay client d ≡ verdict both
kept_inquiry-verdict env later req pay client is_sandbox both d kept ref cust prod live =
    let (own, status) =
      kept-IsOf env req client both d (process_inquiry env req client is_sandbox).effects
        (inquiry-Own env req client is_sandbox).all kept in
    own-verdict env req client later pay both d own status ref cust prod live
