-- ===== src/Transaction/Told.antt =====
-- What the merchant is told by an operation that may also end without a transaction.
use gtd_api.Prelude.{
  String, ◌≡◌, refl, ◌⊎◌, inl, inr, Bool, true, false, Option, none, some, List, [], ◌∷◌, ◌++◌, All,
  if◌then◌else◌, ◌∙◌,
}
use gtd_api.Errors.{GoError, Result, ok, err}
use gtd_api.Transaction.Model.{
  Transaction, TransactionStatus, processing, success, pending, failed, other_status, is_final,
}
use gtd_api.Transaction.Store.{
  Effect, saved, callback_started, callback_kept, callback_processed, provider_callback_kept,
  provider_callback_processed,
}
use gtd_api.Transaction.Skus.{Running}
use gtd_api.Transaction.Announced.{callbacks, last_saved, announced, Announces, IsAnnounced}

-- No callback, unless there `must` be one, or one: of a transaction with a final status, with the
-- event of this status, and behind the last write, which is of this very transaction and came to
-- what `written` asks for.
abbrev pub Tells : (must : Bool) → (written : Option GoError → Type 0) → List Effect → Type 0
Tells must written es =
    ((must ≡ false) × (callbacks es ≡ []))
    ⊎ ((t : Transaction) × (event : String) × (e : Option GoError) × (callbacks es
          ≡ (t, event) ∷ [])
        × (announced t ≡ (t, event) ∷ [])
        × (last_saved es ≡ some (t, e))
        × written e)

abbrev pub Succeeded : Option GoError → Type 0
Succeeded e = e ≡ none

announced-cases :
    (t : Transaction) (s : TransactionStatus)
    → t.status ≡ s
    → (announced t ≡ []) ⊎ ((event : String) × (announced t ≡ (t, event) ∷ []))
announced-cases t success e = inr ("transaction.success", rw e refl)
announced-cases t failed e = inr ("transaction.failed", rw e refl)
announced-cases t processing e = inl (rw e refl)
announced-cases t pending e = inl (rw e refl)
announced-cases t (other_status text) e = inl (rw e refl)

Announces-Tells :
    (es : List Effect) (o : Result (Option Transaction)) → Announces es o → Tells false Succeeded es
Announces-Tells es (err e) h = inl (refl, h)
Announces-Tells es (ok none) h = inl (refl, h)
Announces-Tells es (ok (some t)) (told, kept) = elim (announced-cases t t.status refl) [
  | inl silent ↦ inl (refl, told ∙ silent)
  | inr (event, said) ↦ inr (t, event, none, told ∙ said, said, kept, refl)
]

pub IsAnnounced-Tells : (r : Running) → IsAnnounced r → Tells false Succeeded r.effects
IsAnnounced-Tells r h = Announces-Tells r.effects r.outcome h.holds

pub Tells-any :
    (written : Option GoError → Type 0) (es : List Effect)
    → ((e : Option GoError) → Succeeded e → written e)
    → Tells false Succeeded es
    → Tells false written es
Tells-any written es f (inl h) = inl h
Tells-any written es f (inr (t, event, e, told, said, kept, w)) =
    inr (t, event, e, told, said, kept, f e w)

pub callbacks-before :
    (es fs : List Effect) → callbacks fs ≡ [] → callbacks (es ++ fs) ≡ callbacks es
callbacks-before [] fs h = h
callbacks-before (callback_started t event ∷ es) fs h = rw (callbacks-before es fs h)
callbacks-before (_ ∷ es) fs h = callbacks-before es fs h

last_saved-before :
    (es fs : List Effect) → last_saved fs ≡ none → last_saved (es ++ fs) ≡ last_saved es
last_saved-before [] fs h = h
last_saved-before (saved t e ∷ es) fs h = rw (last_saved-before es fs h)
last_saved-before (_ ∷ es) fs h = last_saved-before es fs h

-- What is marked behind the callback changes nothing of it.
pub append-Tells :
    (written : Option GoError → Type 0) (es fs : List Effect)
    → callbacks fs ≡ []
    → last_saved fs ≡ none
    → Tells false written es
    → Tells false written (es ++ fs)
append-Tells written es fs quiet unsaved (inl (free, h)) =
    inl (free, callbacks-before es fs quiet ∙ h)
append-Tells written es fs quiet unsaved (inr (t, event, e, told, said, kept, w)) = inr (
  t,
  event,
  e,
  callbacks-before es fs quiet ∙ told,
  said,
  last_saved-before es fs unsaved ∙ kept,
  w,
)

-- The rows of the callbacks themselves.
abbrev pub IsAudit : Effect → Type 0
IsAudit (callback_kept p) = Unit
IsAudit (callback_processed id) = Unit
IsAudit (provider_callback_kept c) = Unit
IsAudit provider_callback_processed = Unit
IsAudit _ = ◌≡◌ true false

-- A settled transaction is at most written with another trace: nobody is asked or told anything.
abbrev pub Leaves : Transaction → Effect → Type 0
Leaves t (saved u e) =
    (u.status ≡ t.status)
    × (u.processed_at ≡ t.processed_at)
    × (u.failed_code ≡ t.failed_code)
    × (u.serial_number ≡ t.serial_number)
Leaves t e = IsAudit e

-- What a callback comes to, of the transaction that is found for it: nothing, where there is none;
-- what `leaves` allows, where it has a final status; and otherwise at most one callback of the
-- merchant, and one where there `must` be.
abbrev pub Answers :
    (leaves : Transaction → Effect → Type 0)
    → (must : Transaction → Bool) → (written : Option GoError → Type 0) → Result Transaction
    → List Effect
    → Type 0
Answers leaves must written (err e) es = All IsAudit es
Answers leaves must written (ok t) es =
    if is_final t.status then All (leaves t) es else Tells (must t) written es
