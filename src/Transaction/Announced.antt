-- ===== src/Transaction/Announced.antt =====
-- When the merchant is told of a transaction.
pub mod Routed
pub mod Paid
pub mod Created
use gtd_api.Prelude.{
  ℕ, zero, suc, String, ◌≡◌, refl, ap, sym, Bool, true, false, not, ◌&&◌, ◌||◌, Option, none, some,
  List, [], ◌∷◌, ◌++◌, All, arith, ◌∙◌, if◌then◌else◌, Bool-cases, inl, inr,
}
use gtd_api.Errors.{GoError, Result, ok, err}
use gtd_api.Run.{Run, emit, emit_if, fail, return_ok}
use gtd_api.Transaction.Model.{Transaction, success, failed, InquiryData}
use gtd_api.Transaction.Store.{
  Env, Effect, saved, callback_started, uncached, notified_status, after_save, persist,
  notify_status,
}
use gtd_api.Transaction.Settle.{Handled, settle, keep_going}
use gtd_api.Transaction.PayInquiry.{settle_paid}
use gtd_api.Transaction.Skus.{Running, finished, with_effects}

-- The callbacks that are started, in their order.
abbrev pub callbacks : List Effect → List (Transaction × String)
callbacks [] = []
callbacks (callback_started t event ∷ rest) = (t, event) ∷ callbacks rest
callbacks (_ ∷ rest) = callbacks rest

abbrev later :
    Option (Transaction × Option GoError)
    → Transaction
    → Option GoError
    → Option (Transaction × Option GoError)
later none t e = some (t, e)
later (some x) t e = some x

-- The last write, with its error.
abbrev pub last_saved : List Effect → Option (Transaction × Option GoError)
last_saved [] = none
last_saved (saved t e ∷ rest) = later (last_saved rest) t e
last_saved (_ ∷ rest) = last_saved rest

-- What the merchant is told of a transaction with this status.
abbrev pub announced : Transaction → List (Transaction × String)
announced t = elim t.status [
  | success ↦ (t, "transaction.success") ∷ []
  | failed ↦ (t, "transaction.failed") ∷ []
  | _ ↦ []
]

abbrev pub Announces : List Effect → Result (Option Transaction) → Type 0
Announces es (ok (some t)) = (callbacks es ≡ announced t) × (last_saved es ≡ some (t, none))
Announces es _ = callbacks es ≡ []

pub record IsAnnounced (r : Running) : Type 0 where
  pub holds : Announces r.effects r.outcome

abbrev pub IsSilent : Effect → Type 0
IsSilent (callback_started t event) = ◌≡◌ true false
IsSilent _ = Unit

callbacks-append : (es fs : List Effect) → All IsSilent es → callbacks (es ++ fs) ≡ callbacks fs
callbacks-append [] fs h = refl
callbacks-append (callback_started t event ∷ es) fs h = cc
callbacks-append (_ ∷ es) fs h = callbacks-append es fs h.1

last_saved-append :
    (es fs : List Effect) (x : Transaction × Option GoError)
    → last_saved fs ≡ some x
    → last_saved (es ++ fs) ≡ some x
last_saved-append [] fs x h = h
last_saved-append (saved t e ∷ es) fs x h = rw (last_saved-append es fs x h)
last_saved-append (_ ∷ es) fs x h = last_saved-append es fs x h

-- Effects before an operation that start no callback leave it as it is.
prefix-Announces :
    (es fs : List Effect) (o : Result (Option Transaction))
    → All IsSilent es
    → Announces fs o
    → Announces (es ++ fs) o
prefix-Announces es fs (ok none) q h = callbacks-append es fs q ∙ h
prefix-Announces es fs (ok (some t)) q (told, kept) =
    (callbacks-append es fs q ∙ told, last_saved-append es fs (t, none) kept)
prefix-Announces es fs (err e) q h = callbacks-append es fs q ∙ h

pub prefix-IsAnnounced :
    (es : List Effect) (r : Running)
    → All IsSilent es
    → IsAnnounced r
    → IsAnnounced (with_effects es r)
prefix-IsAnnounced es r q h = record { holds = prefix-Announces es r.effects r.outcome q h.holds }

pub emit-IsAnnounced :
    (e : Effect) (r : Running) → IsSilent e → IsAnnounced r → IsAnnounced (emit e r)
emit-IsAnnounced e r q h = record {
  holds = prefix-Announces (e ∷ []) r.effects r.outcome (q, tt) h.holds;
}

pub emit_if-IsAnnounced :
    (b : Bool) (e : Effect) (r : Running) → IsSilent e → IsAnnounced r → IsAnnounced (emit_if b e r)
emit_if-IsAnnounced true e r q h = emit-IsAnnounced e r q h
emit_if-IsAnnounced false e r q h = h

pub fail-IsAnnounced : (e : GoError) → IsAnnounced (fail e)
fail-IsAnnounced e = record { holds = refl }

pub if-IsAnnounced :
    (b : Bool) (r s : Running) → IsAnnounced r → IsAnnounced s → IsAnnounced (if b then r else s)
if-IsAnnounced true r s h k = h
if-IsAnnounced false r s h k = k

closed-IsAnnounced :
    (o : Option GoError) (notify : Bool) (t : Transaction) (event : String)
    → announced t ≡ (t, event) ∷ []
    → IsAnnounced (
        finished (
          emit (saved t o) (
            after_save o (
              emit_if notify (notified_status t) (emit (callback_started t event) (return_ok t))))))
closed-IsAnnounced none true t event told = record { holds = (sym told, refl) }
closed-IsAnnounced none false t event told = record { holds = (sym told, refl) }
closed-IsAnnounced (some e) notify t event told = record { holds = refl }

closed_paid-IsAnnounced :
    (o : Option GoError) (notify : Bool) (t : Transaction) (event : String) (d : InquiryData)
    → announced t ≡ (t, event) ∷ []
    → IsAnnounced (
        finished (
          emit (saved t o) (
            after_save o (
              emit (uncached d) (
                emit_if notify
                  (notified_status t)
                  (emit (callback_started t event) (return_ok t)))))))
closed_paid-IsAnnounced none true t event d told = record { holds = (sym told, refl) }
closed_paid-IsAnnounced none false t event d told = record { holds = (sym told, refl) }
closed_paid-IsAnnounced (some e) notify t event d told = record { holds = refl }

kept-IsAnnounced :
    (o : Option GoError) (notify : Bool) (t : Transaction)
    → announced t ≡ []
    → IsAnnounced (
        finished
          (emit (saved t o) (after_save o (emit_if notify (notified_status t) (return_ok t)))))
kept-IsAnnounced none true t told = record { holds = (sym told, refl) }
kept-IsAnnounced none false t told = record { holds = (sym told, refl) }
kept-IsAnnounced (some e) notify t told = record { holds = refl }

pub settle-IsAnnounced :
    (env : Env) (t : Transaction) (event : String)
    → announced t ≡ (t, event) ∷ []
    → IsAnnounced (finished (settle env t event))
unfolding settle
settle-IsAnnounced env t event told =
    closed-IsAnnounced (env.update t) env.has_notifier t event told

pub settle_paid-IsAnnounced :
    (env : Env) (t : Transaction) (d : InquiryData)
    → announced t ≡ (t, "transaction.success") ∷ []
    → IsAnnounced (finished (settle_paid env t d))
unfolding settle_paid
settle_paid-IsAnnounced env t d told =
    closed_paid-IsAnnounced (env.update t) env.has_notifier t "transaction.success" d told

pub keep_going-IsAnnounced :
    (env : Env) (t : Transaction) → announced t ≡ [] → IsAnnounced (finished (keep_going env t))
unfolding keep_going
keep_going-IsAnnounced env t told = kept-IsAnnounced (env.update t) env.has_notifier t told
