-- ===== src/Transaction/Skus/Refs.antt =====
-- Under which references Digiflazz is called, and what is stored before a call.
use gtd_api.Prelude.{
  ℕ, zero, suc, ◌+◌, ◌<◌, ◌≤◌, String, ◌≡◌, refl, Bool, true, false, Bool-cases, inl, inr, some,
  List, [], ◌∷◌, leb, All, if◌then◌else◌, arith,
}
use gtd_api.Errors.{GoError, Result, ok, err}
use gtd_api.Transaction.Model.{Transaction, Sku, DigiResponse, DigiCall, TransactionLog}
use gtd_api.Transaction.Store.{Env, Effect, saved, called, logged}
use gtd_api.Transaction.Settle.{
  handle_success, handle_pending, handle_fatal, handle_all_skus_failed,
}
use gtd_api.Transaction.Codes.{
  is_success, is_pending, is_fatal, needs_new_ref_id, is_retryable_wait,
}
use gtd_api.Run.Keeps.{Keeps}
use gtd_api.Transaction.Bookkeeping.{IsBookkeeping, settle-IsBookkeeping, keep_going-IsBookkeeping}
use gtd_api.Transaction.Skus.{
  Loop, Next, stop, same_ref, fresh_ref, next_sku, Running, try_all_skus, after_call,
  after_response, call_with, call_effects, prepared, suffixed_ref, max_network_retries,
  with_effects, continue, try_round, start,
}

-- What may follow a call of the suffix `s` that has failed `n` times before: the same suffix again,
-- if the network failed and not more than twice before it; otherwise the next suffix.
pub data Pace (s n : ℕ) : Result DigiResponse → ℕ → ℕ → Type 0 where
  retried : (e : GoError) → n < 2 → Pace s n (err e) s (suc n)
  given_up : (e : GoError) → 2 ≤ n → Pace s n (err e) (suc s) 0
  answered : (r : DigiResponse) → Pace s n (ok r) (suc s) 0

-- The effects from the suffix `s` on, which has failed `n` times, of a transaction with the id
-- `id`: each call stands behind a write of the transaction with the call's reference.
pub data IsPaced (env : Env) (id : String) : ℕ → ℕ → List Effect → Type 0 where
  quiet : {s n : ℕ} {es : List Effect} → All IsBookkeeping es → IsPaced env id s n es
  call :
      {s n s' n' : ℕ} {es : List Effect} (t : Transaction) (c : DigiCall) (entry : TransactionLog)
      → t.digi_ref_id ≡ some (suffixed_ref env id s)
      → c.ref_id ≡ suffixed_ref env id s
      → Pace s n c.answer s' n'
      → IsPaced env id s' n' es
      → IsPaced env id s n (saved t (env.update t) ∷ called c ∷ logged entry ∷ es)

-- After a response the same reference is never used again.
abbrev StopsQuietly : Next → Type 0
StopsQuietly (stop r) = Keeps IsBookkeeping r
StopsQuietly same_ref = ◌≡◌ true false
StopsQuietly _ = Unit

StopsQuietly-if :
    (b : Bool) (x y : Next) → StopsQuietly x → StopsQuietly y → StopsQuietly (if b then x else y)
StopsQuietly-if true x y h k = h
StopsQuietly-if false x y h k = k

after_response-StopsQuietly :
    (env : Env) (l : Loop) (t : Transaction) (sku : Sku) (r : DigiResponse)
    → StopsQuietly (after_response env l t sku r)
unfolding after_response handle_success handle_pending handle_fatal handle_all_skus_failed
after_response-StopsQuietly env l t sku r =
    StopsQuietly-if (is_success r.rc) _ _ (settle-IsBookkeeping env _ _) (
      StopsQuietly-if (is_pending r.rc) _ _ (keep_going-IsBookkeeping env _) (
        StopsQuietly-if (is_fatal r.rc) _ _ (settle-IsBookkeeping env _ _) (
          StopsQuietly-if (needs_new_ref_id r.rc) _ _ tt (
            StopsQuietly-if (is_retryable_wait r.rc) _ _
              (StopsQuietly-if (env.cancelled l.calls) _ _ (settle-IsBookkeeping env _ _) tt) tt))))

abbrev Fits : (s n : ℕ) → Result DigiResponse → Next → Type 0
Fits s n a (stop r) = Keeps IsBookkeeping r
Fits s n a same_ref = Pace s n a s (suc n)
Fits s n a _ = Pace s n a (suc s) 0

response-Fits : (s n : ℕ) (r : DigiResponse) (x : Next) → StopsQuietly x → Fits s n (ok r) x
response-Fits s n r (stop h) q = q
response-Fits s n r same_ref q = cc
response-Fits s n r fresh_ref q = answered r
response-Fits s n r next_sku q = answered r

Fits-if :
    (s n : ℕ) (a : Result DigiResponse) (b : Bool) (x y : Next)
    → (b ≡ true → Fits s n a x)
    → (b ≡ false → Fits s n a y)
    → Fits s n a (if b then x else y)
Fits-if s n a true x y h k = h refl
Fits-if s n a false x y h k = k refl

after_call-Fits :
    (env : Env) (l : Loop) (t : Transaction) (sku : Sku) (a : Result DigiResponse)
    → Fits l.suffix l.retries a (after_call env l t sku a)
unfolding after_call handle_all_skus_failed
after_call-Fits env l t sku (ok r) =
    response-Fits l.suffix l.retries r _ (after_response-StopsQuietly env l t sku r)
after_call-Fits env l t sku (err e) =
    Fits-if l.suffix l.retries (err e) (leb (l.retries + 1) max_network_retries) _ _
      (λ few.
        Fits-if l.suffix l.retries (err e) (env.cancelled l.calls) _ _
          (λ c. settle-IsBookkeeping env _ _) (λ c. retried e (ground arith)))
      (λ many. given_up e (ground arith))

some-Pace : (s n : ℕ) (a : Result DigiResponse) → (s' : ℕ) × (n' : ℕ) × Pace s n a s' n'
some-Pace s n (ok r) = (suc s, 0, answered r)
some-Pace s n (err e) = elim (Bool-cases (leb 2 n)) [
  | inl many ↦ (suc s, 0, given_up e (ground arith))
  | inr few ↦ (s, suc n, retried e (ground arith))
]

abbrev Continues : Env → (Loop → Running) → Type 0
Continues env again =
    (m : Loop) → IsPaced env m.trx.transaction_id m.suffix m.retries (again m).effects

continue-IsPaced :
    (again : Loop → Running) (env : Env) (l : Loop) (sku : Sku) (rest : List Sku) (x : Next)
    → Continues env again
    → Fits l.suffix l.retries (call_with env l sku).answer x
    → IsPaced env l.trx.transaction_id l.suffix l.retries
        (with_effects
          (call_effects env l sku)
          (continue again l (prepared env l sku) sku rest x)).effects
unfolding call_effects prepared call_with continue
continue-IsPaced again env l sku rest (stop r) ih fits =
    let (s', n', pace) = some-Pace l.suffix l.retries (call_with env l sku).answer in
    call (prepared env l sku) (call_with env l sku) _ refl refl pace (quiet fits.all)
continue-IsPaced again env l sku rest same_ref ih fits =
    call (prepared env l sku) (call_with env l sku) _ refl refl fits (ih _)
continue-IsPaced again env l sku rest fresh_ref ih fits =
    call (prepared env l sku) (call_with env l sku) _ refl refl fits (ih _)
continue-IsPaced again env l sku rest next_sku ih fits =
    call (prepared env l sku) (call_with env l sku) _ refl refl fits (ih _)

round-IsPaced :
    (again : Loop → Running) (env : Env) (l : Loop) (skus : List Sku)
    → Continues env again
    → IsPaced env l.trx.transaction_id l.suffix l.retries (try_round again env l skus).effects
unfolding try_round handle_all_skus_failed
round-IsPaced again env l [] ih = quiet (settle-IsBookkeeping env _ _).all
round-IsPaced again env l (sku ∷ rest) ih =
    continue-IsPaced again env l sku rest _ ih
      (after_call-Fits env l (prepared env l sku) sku (call_with env l sku).answer)

loop-IsPaced : (fuel : ℕ) (env : Env) → Continues env (try_all_skus fuel env)
unfolding try_all_skus
loop-IsPaced zero env l = quiet tt
loop-IsPaced (suc fuel) env l =
    round-IsPaced (try_all_skus fuel env) env l l.skus (loop-IsPaced fuel env)

-- However long the loop over the SKUs runs, and also where it never returns: each call of Digiflazz
-- is made right behind a write of the transaction with the call's reference. The first call has the
-- suffix that the loop starts with. A call under the reference of the call before it is made only
-- if that one ended in a network error, and no suffix is called more than three times in a row;
-- after any response, and after a third network error, the suffix goes up by one.
pub try_all_skus-IsPaced :
    (fuel : ℕ) (env : Env) (t : Transaction) (skus : List Sku) (suffix : ℕ)
    → IsPaced env t.transaction_id suffix 0 (try_all_skus fuel env (start t skus suffix)).effects
try_all_skus-IsPaced fuel env t skus suffix = loop-IsPaced fuel env (start t skus suffix)
