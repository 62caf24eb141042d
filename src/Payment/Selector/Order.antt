-- ===== src/Payment/Selector/Order.antt =====
-- Which binding the selector takes, and which ones the fallback goes on to.
use gtd_api.Prelude.{
  ℕ, ◌≡◌, ◌≢◌, refl, subst, inl, inr, true, false, Option, none, some, List, [], ◌∷◌, All, arith,
  ◌==◌, Bool-cases, if◌then◌else◌,
}
use gtd_api.Prelude.Int.{ℤ, ◌≤ℤ◌}
use gtd_api.Errors.{Result, ok, err}
use gtd_api.Payment.Model.{MethodProviderBinding}
use gtd_api.Payment.Store.{Clients}
use gtd_api.Payment.Selector.{
  healthy, first_healthy, select, scan_after, next, or_unavailable, method_unavailable,
}

-- The list is ordered by priority, as the repository returns it.
abbrev pub IsOrdered : List MethodProviderBinding → Type 0
IsOrdered [] = Unit
IsOrdered (b ∷ bs) = All (λ x. b.priority ≤ℤ x.priority) bs × IsOrdered bs

-- `b` is at least as urgent as every healthy binding of the list.
abbrev pub IsBest : Clients → MethodProviderBinding → List MethodProviderBinding → Type 0
IsBest clients b bs = All (λ x. healthy clients x ≡ true → b.priority ≤ℤ x.priority) bs

IsBest-weaken :
    (clients : Clients) (b : MethodProviderBinding) (bs : List MethodProviderBinding)
    → All (λ x. b.priority ≤ℤ x.priority) bs
    → IsBest clients b bs
IsBest-weaken clients b [] h = tt
IsBest-weaken clients b (x ∷ bs) h = (λ _. h.0, IsBest-weaken clients b bs h.1)

ℤ_refl : (a : ℤ) → a ≤ℤ a
ℤ_refl a = omega arith

first_healthy-IsBest :
    (clients : Clients) (b : MethodProviderBinding) (bs : List MethodProviderBinding)
    → IsOrdered bs
    → first_healthy clients bs ≡ some b
    → (healthy clients b ≡ true) × IsBest clients b bs
unfolding first_healthy
first_healthy-IsBest clients b [] o h = cc
first_healthy-IsBest clients b (x ∷ bs) o h = elim (Bool-cases (healthy clients x)) [
  | inl good ↦
      let e : some x ≡ some b = rw good at h in
      let same : x ≡ b = cc in
      subst (λ y. (healthy clients y ≡ true) × IsBest clients y (x ∷ bs)) same
        (good, ((λ _. ℤ_refl x.priority), IsBest-weaken clients x bs o.0))
  | inr bad ↦
      let rest = first_healthy-IsBest clients b bs o.1 (rw bad at h) in
      (rest.0, ((λ good. cc), rest.1))
]

first_healthy-none :
    (clients : Clients) (bs : List MethodProviderBinding)
    → first_healthy clients bs ≡ none
    → All (λ x. healthy clients x ≡ false) bs
unfolding first_healthy
first_healthy-none clients [] h = tt
first_healthy-none clients (x ∷ bs) h = elim (Bool-cases (healthy clients x)) [
  | inl good ↦ let e : some x ≡ none = rw good at h in cc
  | inr bad ↦ (bad, first_healthy-none clients bs (rw bad at h))
]

abbrev pub SelectFits : Clients → List MethodProviderBinding → Result MethodProviderBinding → Type 0
SelectFits clients bs (ok b) = (healthy clients b ≡ true) × IsBest clients b bs
SelectFits clients bs (err e) = (e ≡ method_unavailable) × All (λ x. healthy clients x ≡ false) bs

select-fits :
    (clients : Clients) (bs : List MethodProviderBinding) (o : Option MethodProviderBinding)
    → first_healthy clients bs ≡ o
    → IsOrdered bs
    → SelectFits clients bs (or_unavailable o)
select-fits clients bs none h o = (refl, first_healthy-none clients bs h)
select-fits clients bs (some b) h o = first_healthy-IsBest clients b bs o h

-- Over bindings in the order of their priorities, Select returns a healthy binding whose priority
-- no healthy binding of the group precedes; and it fails, with 503 METHOD_UNAVAILABLE, only where
-- no binding of the group is healthy.
pub select_best :
    (clients : Clients) (bindings : List MethodProviderBinding)
    → IsOrdered bindings
    → SelectFits clients bindings (select clients bindings)
unfolding select
select_best clients bs o = select-fits clients bs (first_healthy clients bs) refl o

-- The bindings behind the first one with the id.
unfoldable pub rest_after : (id : ℕ) → List MethodProviderBinding → List MethodProviderBinding
rest_after id [] = []
rest_after id (b ∷ bs) = if b.id == id then bs else rest_after id bs

scan_after-seen :
    (clients : Clients) (id : ℕ) (bs : List MethodProviderBinding)
    → scan_after clients id true bs ≡ first_healthy clients bs
unfolding scan_after first_healthy
scan_after-seen clients id [] = refl
scan_after-seen clients id (b ∷ bs) = rw (scan_after-seen clients id bs)

scan_after-rest :
    (clients : Clients) (id : ℕ) (bs : List MethodProviderBinding)
    → scan_after clients id false bs ≡ first_healthy clients (rest_after id bs)
unfolding scan_after rest_after first_healthy
scan_after-rest clients id [] = refl
scan_after-rest clients id (b ∷ bs) =
    ground (arith, scan_after-seen clients id bs, scan_after-rest clients id bs)

-- Next is the first healthy binding behind the one that was tried.
pub next-rest_after :
    (clients : Clients) (bs : List MethodProviderBinding) (b : MethodProviderBinding)
    → next clients bs b ≡ first_healthy clients (rest_after b.id bs)
unfolding next
next-rest_after clients bs b = scan_after-rest clients b.id bs

-- No two bindings of the group have one id; it is the table's primary key.
abbrev pub IsDistinct : List MethodProviderBinding → Type 0
IsDistinct [] = Unit
IsDistinct (b ∷ bs) = All (λ x. b.id ≢ x.id) bs × IsDistinct bs
