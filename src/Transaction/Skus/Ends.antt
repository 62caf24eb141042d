-- ===== src/Transaction/Skus/Ends.antt =====
-- When the loop over the SKUs returns, and when it never does.
use gtd_api.Prelude.{
  ℕ, zero, suc, ◌+◌, ◌*◌, ◌-◌, ◌≤◌, ◌<◌, String, ◌≡◌, ◌≢◌, refl, Bool, true, false, Option, none,
  some, List, [], ◌∷◌, length, leb, if◌then◌else◌, arith,
}
use gtd_api.Errors.{Result, map_ok, ok, err}
use gtd_api.Transaction.Model.{Transaction, Sku, DigiResponse}
use gtd_api.Transaction.Codes.{
  is_success, is_pending, is_fatal, needs_new_ref_id, is_retryable_wait,
}
use gtd_api.Transaction.Store.{Env, Effect, called}
use gtd_api.Transaction.Settle.{Handled, handle_all_skus_failed}
use gtd_api.Transaction.Skus.{
  Loop, Next, stop, same_ref, fresh_ref, next_sku, Running, finished, try_all_skus, after_call,
  after_response, call_with, call_effects, prepared, moved, max_network_retries, with_effects,
  continue, try_round, start,
}

-- The loop has returned, with a transaction or an error.
abbrev pub HasReturned : Running → Type 0
HasReturned r = r.outcome ≢ ok none

-- The client asks neither for another reference nor for a wait (RC 49, 85, 86).
abbrev pub MovesOn : Env → Type 0
MovesOn env =
    (call : ℕ) (sku customer_no ref_id : String) (testing : Bool) (r : DigiResponse)
    → env.topup call sku customer_no ref_id testing ≡ ok r
    → (needs_new_ref_id r.rc ≡ false) × (is_retryable_wait r.rc ≡ false)

finished-HasReturned : (r : Handled) → HasReturned (finished r)
finished-HasReturned r h = go r.outcome h
  where
    go : (o : Result Transaction) → ◌≢◌ {A = Result (Option Transaction)} (map_ok some o) (ok none)
    go (ok t) e = cc
    go (err x) e = cc

-- Where the client moves on, a call that does not end the loop goes to the next SKU, or to the same
-- reference after a network error.
abbrev Falls : (retries : ℕ) → Next → Type 0
Falls n fresh_ref = ◌≡◌ true false
Falls n same_ref = n < 2
Falls n _ = Unit

Falls-if :
    (n : ℕ) (b : Bool) (x y : Next)
    → (b ≡ true → Falls n x)
    → (b ≡ false → Falls n y)
    → Falls n (if b then x else y)
Falls-if n true x y h k = h refl
Falls-if n false x y h k = k refl

after_call-Falls :
    (env : Env) (l : Loop) (t : Transaction) (sku : Sku) (a : Result DigiResponse)
    → ((r : DigiResponse)
        → a ≡ ok r
        → (needs_new_ref_id r.rc ≡ false) × (is_retryable_wait r.rc ≡ false))
    → Falls l.retries (after_call env l t sku a)
unfolding after_call after_response
after_call-Falls env l t sku (err e) moves =
    Falls-if l.retries (leb (l.retries + 1) max_network_retries) _ _
      (λ few. Falls-if l.retries (env.cancelled l.calls) _ _ (λ c. tt) (λ c. ground arith))
      (λ many. tt)
after_call-Falls env l t sku (ok r) moves =
    let (fresh, wait) = moves r refl in
    rw (fresh, wait)
      (Falls-if l.retries (is_success r.rc) _ _ (λ b. tt)
        (λ b.
          Falls-if l.retries (is_pending r.rc) _ _ (λ b. tt)
            (λ b. Falls-if l.retries (is_fatal r.rc) _ _ (λ b. tt) (λ b. tt))))

-- Three calls for each SKU at most, less the retries made.
abbrev measure : (skus : List Sku) → (retries : ℕ) → ℕ
measure skus retries = 3 * length skus - retries

abbrev Ends : (fuel : ℕ) → (Loop → Running) → Type 0
Ends fuel again =
    (m : Loop) → m.retries ≤ 2 → measure m.skus m.retries < fuel → HasReturned (again m)

continue-HasReturned :
    (again : Loop → Running) (fuel : ℕ) (l : Loop) (t : Transaction) (sku : Sku) (rest : List Sku)
    (x : Next)
    → Ends fuel again
    → l.retries ≤ 2
    → 3 * suc (length rest) - l.retries < suc fuel
    → Falls l.retries x
    → HasReturned (continue again l t sku rest x)
unfolding continue
continue-HasReturned again fuel l t sku rest (stop r) ih few m f = finished-HasReturned r
continue-HasReturned again fuel l t sku rest same_ref ih few m f = ih _ (omega arith) (omega arith)
continue-HasReturned again fuel l t sku rest fresh_ref ih few m f = cc
continue-HasReturned again fuel l t sku rest next_sku ih few m f = ih _ (omega arith) (omega arith)

round-HasReturned :
    (again : Loop → Running) (fuel : ℕ) (env : Env) (l : Loop) (skus : List Sku)
    → MovesOn env
    → Ends fuel again
    → l.retries ≤ 2
    → measure skus l.retries < suc fuel
    → HasReturned (try_round again env l skus)
unfolding try_round call_with
round-HasReturned again fuel env l [] moves ih few m =
    finished-HasReturned (handle_all_skus_failed env l.trx)
round-HasReturned again fuel env l (sku ∷ rest) moves ih few m =
    continue-HasReturned again fuel l (prepared env l sku) sku rest _ ih few m (
      after_call-Falls env l (prepared env l sku) sku (call_with env l sku).answer
        (λ r answer. moves _ _ _ _ _ r answer))

loop-Ends : (fuel : ℕ) (env : Env) → MovesOn env → Ends fuel (try_all_skus fuel env)
unfolding try_all_skus
loop-Ends zero env moves l few m = absurd (omega arith)
loop-Ends (suc fuel) env moves l few m =
    round-HasReturned (try_all_skus fuel env) fuel env l l.skus moves (loop-Ends fuel env moves) few
      m

-- Where Digiflazz never answers with RC 49, 85 or 86, the loop returns, whatever else it answers:
-- it makes at most three calls for each SKU, so that one unit of fuel more than three times the
-- number of SKUs is enough.
pub try_all_skus_ends :
    (env : Env) (t : Transaction) (skus : List Sku) (suffix : ℕ)
    → MovesOn env
    → HasReturned (try_all_skus (suc (3 * length skus)) env (start t skus suffix))
try_all_skus_ends env t skus suffix moves =
    loop-Ends (suc (3 * length skus)) env moves (start t skus suffix) (omega arith) (omega arith)

abbrev pub calls_made : List Effect → ℕ
calls_made [] = 0
calls_made (called c ∷ rest) = suc (calls_made rest)
calls_made (_ ∷ rest) = calls_made rest

-- The calls before the n-th are answered with RC 49, that the reference was used before.
abbrev pub WantsNewRef : Env → (n : ℕ) → Type 0
WantsNewRef env n =
    (call : ℕ) (sku customer_no ref_id : String) (testing : Bool)
    → call < n
    → (r : DigiResponse) × (env.topup call sku customer_no ref_id testing ≡ ok r) × (r.rc ≡ "49")

after_response-fresh :
    (env : Env) (l : Loop) (t : Transaction) (sku : Sku) (r : DigiResponse)
    → r.rc ≡ "49"
    → after_response env l t sku r ≡ fresh_ref
unfolding after_response is_success is_pending is_fatal needs_new_ref_id
after_response-fresh env l t sku r e = rw e

-- The loop was cut off after that many calls.
record IsCutAfter (calls : ℕ) (r : Running) : Type 0 where
  running : r.outcome ≡ ok none
  counted : calls_made r.effects ≡ calls

continue-IsCutAfter :
    (again : Loop → Running) (env : Env) (fuel : ℕ) (l : Loop) (sku : Sku) (rest : List Sku)
    (a : Result DigiResponse) (r : DigiResponse)
    → a ≡ ok r
    → r.rc ≡ "49"
    → ((m : Loop) → m.skus ≡ sku ∷ rest → m.calls ≡ suc l.calls → IsCutAfter fuel (again m))
    → IsCutAfter (suc fuel) (
        with_effects (call_effects env l sku) (
          continue again l
            (prepared env l sku)
            sku
            rest
            (after_call env l (prepared env l sku) sku a)))
unfolding continue after_call call_effects
continue-IsCutAfter again env fuel l sku rest a r answer code ih =
    let cut = ih (moved l (prepared env l sku) (sku ∷ rest) (suc l.suffix) 0) refl refl in
    rw (answer, after_response-fresh env l (prepared env l sku) sku r code)
      (record { running = cut.running; counted = omega (arith, cut.counted) })

loop-IsCutAfter :
    (fuel n : ℕ) (env : Env) (l : Loop) (sku : Sku) (rest : List Sku)
    → WantsNewRef env n
    → l.calls + fuel ≤ n
    → l.skus ≡ sku ∷ rest
    → IsCutAfter fuel (try_all_skus fuel env l)
unfolding try_all_skus try_round call_with
loop-IsCutAfter zero n env l sku rest wants m e = record { running = refl; counted = refl }
loop-IsCutAfter (suc fuel) n env l sku rest wants m e =
    let (r, answer, code) = wants l.calls _ _ _ l.trx.is_sandbox (omega arith) in
    rw e (
      continue-IsCutAfter (try_all_skus fuel env) env fuel l sku rest _ r answer code
        (λ k same next. loop-IsCutAfter fuel n env k sku rest wants (omega arith) same))

-- Nothing in the loop over one SKU or more bounds the answers with RC 49: if the first `n` calls are
-- answered so, it has made these calls and goes on, whatever `n` is. (A call fails once the
-- request's context has ended, so this lasts no longer than the context.)
pub try_all_skus_runs_on :
    (n : ℕ) (env : Env) (t : Transaction) (sku : Sku) (rest : List Sku) (suffix : ℕ)
    → WantsNewRef env n
    → ((try_all_skus n env (start t (sku ∷ rest) suffix)).outcome ≡ ok none)
      × (calls_made (try_all_skus n env (start t (sku ∷ rest) suffix)).effects ≡ n)
try_all_skus_runs_on n env t sku rest suffix wants =
    let h =
      loop-IsCutAfter n n env (start t (sku ∷ rest) suffix) sku rest wants (omega arith) refl in
    (h.running, h.counted)
