-- ===== src/Payment/Fallback/Loop.antt =====
-- The loop over the providers beside a plain recursion on the bindings, and its fuel.
use gtd_api.Prelude.{
  ℕ, zero, suc, ◌<◌, ◌≡◌, ◌≢◌, refl, sym, ap, subst, ◌∙◌, inl, inr, Option, none, some, List, [],
  ◌∷◌, ◌++◌, All, length, length-append, arith, Bool-cases, if◌then◌else◌,
}
use gtd_api.Errors.{Result, ok, err}
use gtd_api.Payment.Model.{MethodProviderBinding, PaymentCreateResponse}
use gtd_api.Payment.Store.{Clients}
use gtd_api.Payment.Selector.{healthy, first_healthy, next}
use gtd_api.Payment.Selector.Order.{IsDistinct, rest_after, next-rest_after}
use gtd_api.Payment.Fallback.{Order, Attempts, attempt, after_attempt, followed_by, fallback}

-- The healthy bindings of `rest` that the loop may still reach, tried in their order behind `b`.
unfoldable pub try_each : Order → MethodProviderBinding → List MethodProviderBinding → Attempts
try_each o b [] =
    followed_by (attempt o b).0 (after_attempt (λ n. ([], none)) b none (attempt o b).1)
try_each o b (n ∷ rest) =
    let go_on =
      followed_by (attempt o b).0
        (after_attempt (λ _. try_each o n rest) b (some n) (attempt o b).1) in
    let skip = try_each o b rest in if healthy o.env.clients n then go_on else skip

-- `rest` is what stands behind `b` in the group, and nothing in it has the id of `b`.
rest_after-skip :
    (id : ℕ) (pre post : List MethodProviderBinding) (b : MethodProviderBinding)
    → All (λ x. x.id ≢ b.id) pre
    → rest_after b.id (pre ++ b ∷ post) ≡ post
unfolding rest_after
rest_after-skip id [] post b h = ground arith
rest_after-skip id (x ∷ pre) post b h = ground (arith, rest_after-skip id pre post b h.1, h.0)

snoc-All :
    (P : MethodProviderBinding → Type 0) (xs : List MethodProviderBinding)
    (x : MethodProviderBinding)
    → All P xs
    → P x
    → All P (xs ++ x ∷ [])
snoc-All P [] x h p = (p, tt)
snoc-All P (y ∷ xs) x h p = (h.0, snoc-All P xs x h.1 p)

append_snoc :
    (xs ys : List MethodProviderBinding) (x : MethodProviderBinding)
    → (xs ++ x ∷ []) ++ ys ≡ xs ++ x ∷ ys
append_snoc [] ys x = refl
append_snoc (y ∷ xs) ys x = ap (λ t. y ∷ t) (append_snoc xs ys x)

-- In a group of distinct ids, nothing in front of a binding has its id.
IsDistinct-front :
    (pre post : List MethodProviderBinding) (b : MethodProviderBinding)
    → IsDistinct (pre ++ b ∷ post)
    → All (λ x. x.id ≢ b.id) pre
IsDistinct-front [] post b d = tt
IsDistinct-front (x ∷ pre) post b d = (here pre d.0, IsDistinct-front pre post b d.1)
  where
    here :
        (pre : List MethodProviderBinding) → All (λ y. x.id ≢ y.id) (pre ++ b ∷ post) → x.id ≢ b.id
    here [] h = h.0
    here (y ∷ ys) h = here ys h.1

after_attempt-none :
    (g h : MethodProviderBinding → Attempts) (b : MethodProviderBinding)
    (r : Result PaymentCreateResponse)
    → after_attempt g b none r ≡ after_attempt h b none r
after_attempt-none g h b (ok response) = refl
after_attempt-none g h b (err e) = refl

after_attempt-some :
    (g h : MethodProviderBinding → Attempts) (b n : MethodProviderBinding)
    (r : Result PaymentCreateResponse)
    → g n ≡ h n
    → after_attempt g b (some n) r ≡ after_attempt h b (some n) r
after_attempt-some g h b n (ok response) e = refl
after_attempt-some g h b n (err x) e = rw e refl

-- `rest` is what the loop has still to look at behind `b`, and `pre` what lies in front of it.
fallback-try_each :
    (o : Order) (rest : List MethodProviderBinding) (fuel : ℕ) (b : MethodProviderBinding)
    (pre : List MethodProviderBinding)
    → IsDistinct o.bindings
    → o.bindings ≡ pre ++ rest
    → next o.env.clients o.bindings b ≡ first_healthy o.env.clients rest
    → length rest < fuel
    → fallback fuel o b ≡ try_each o b rest
unfolding fallback try_each first_healthy
fallback-try_each o rest zero b pre d split seen f = absurd (omega arith)
fallback-try_each o [] (suc fuel) b pre d split seen f = rw seen (
    ap (followed_by (attempt o b).0)
      (after_attempt-none (λ x. fallback fuel o x) (λ x. ([], none)) b (attempt o b).1))
fallback-try_each o (n ∷ rest) (suc fuel) b pre d split seen f =
    elim (Bool-cases (healthy o.env.clients n)) [
      | inl good ↦
          let d' : IsDistinct (pre ++ n ∷ rest) = subst IsDistinct split d in
          let following : next o.env.clients o.bindings n ≡ first_healthy o.env.clients rest =
            next-rest_after o.env.clients o.bindings n
            ∙ ap (λ l. first_healthy o.env.clients (rest_after n.id l)) split
            ∙ ap (first_healthy o.env.clients)
                (rest_after-skip n.id pre rest n (IsDistinct-front pre rest n d')) in
          let split' = split ∙ sym (append_snoc pre rest n) in
          let ih =
            fallback-try_each o rest fuel n (pre ++ n ∷ []) d split' following (omega arith) in
          rw (seen, good)
            (ap (followed_by (attempt o b).0) (
              after_attempt-some (λ x. fallback fuel o x) (λ x. try_each o n rest) b n
                (attempt o b).1 ih))
      | inr bad ↦
          let split' = split ∙ sym (append_snoc pre rest n) in
          let seen' : next o.env.clients o.bindings b ≡ first_healthy o.env.clients rest =
            seen ∙ rw bad refl in
          rw bad
            (fallback-try_each o rest (suc fuel) b (pre ++ n ∷ []) d split' seen' (omega arith))
    ]

after_attempt-ends :
    (g : MethodProviderBinding → Attempts) (b : MethodProviderBinding)
    (following : Option MethodProviderBinding) (r : Result PaymentCreateResponse)
    → ((n : MethodProviderBinding) → following ≡ some n → (g n).1 ≢ none)
    → (after_attempt g b following r).1 ≢ none
after_attempt-ends g b following (ok response) h = λ e. cc
after_attempt-ends g b none (err x) h = ground arith
after_attempt-ends g b (some n) (err x) h = ground (arith, h n refl)

try_each-ends :
    (o : Order) (b : MethodProviderBinding) (rest : List MethodProviderBinding)
    → (try_each o b rest).1 ≢ none
unfolding try_each
try_each-ends o b [] = after_attempt-ends (λ n. ([], none)) b none (attempt o b).1 (λ n e. cc)
try_each-ends o b (n ∷ rest) = elim (Bool-cases (healthy o.env.clients n)) [
  | inl good ↦ rw good (
      after_attempt-ends (λ _. try_each o n rest) b (some n) (attempt o b).1
        (λ m e. try_each-ends o n rest))
  | inr bad ↦ rw bad (try_each-ends o b rest)
]

first_healthy-split :
    (clients : Clients) (bs : List MethodProviderBinding) (b : MethodProviderBinding)
    → first_healthy clients bs ≡ some b
    → (pre : List MethodProviderBinding) × (post : List MethodProviderBinding) × (bs
        ≡ pre ++ b ∷ post)
unfolding first_healthy
first_healthy-split clients [] b h = cc
first_healthy-split clients (x ∷ bs) b h = elim (Bool-cases (healthy clients x)) [
  | inl good ↦ let e : some x ≡ some b = rw good at h in ([], bs, cc)
  | inr bad ↦
      let (pre, post, e) = first_healthy-split clients bs b (rw bad at h) in
      (x ∷ pre, post, ap (λ t. x ∷ t) e)
]

length-behind :
    (pre post : List MethodProviderBinding) (b : MethodProviderBinding)
    → length post < length (pre ++ b ∷ post)
length-behind pre post b = omega (arith, length-append pre (b ∷ post))

-- In a group whose bindings have distinct ids, the loop that starts at the selected binding, with
-- as much fuel as the group has bindings, reaches a decision; and it does what the plain recursion
-- does: it tries the selected binding and then, in their order, the healthy ones of those behind
-- it.
pub fallback-terminates :
    (o : Order) (b : MethodProviderBinding)
    → IsDistinct o.bindings
    → first_healthy o.env.clients o.bindings ≡ some b
    → (pre : List MethodProviderBinding) × (post : List MethodProviderBinding) × (o.bindings
        ≡ pre ++ b ∷ post)
      × (fallback (length o.bindings) o b ≡ try_each o b post)
      × ((fallback (length o.bindings) o b).1 ≢ none)
fallback-terminates o b d h =
    let (pre, post, split) = first_healthy-split o.env.clients o.bindings b h in
    let front = IsDistinct-front pre post b (subst IsDistinct split d) in
    let seen : next o.env.clients o.bindings b ≡ first_healthy o.env.clients post =
      next-rest_after o.env.clients o.bindings b
      ∙ ap (λ l. first_healthy o.env.clients (rest_after b.id l)) split
      ∙ ap (first_healthy o.env.clients) (rest_after-skip b.id pre post b front) in
    let same : fallback (length o.bindings) o b ≡ try_each o b post =
      fallback-try_each o post (length o.bindings) b (pre ++ b ∷ []) d
        (split ∙ sym (append_snoc pre post b)) seen
        (rw (ap (length {A = MethodProviderBinding}) split) (length-behind pre post b)) in
    (pre, post, split, same, rw same (try_each-ends o b post))
