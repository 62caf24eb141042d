-- ===== src/Transaction/Bookkeeping.antt =====
-- What the endings of a transaction do: writes, notifications and callbacks, and no call of a provider.
use gtd_api.Prelude.{◌≡◌, true, false, Option, none, some, All-weaken, String}
use gtd_api.Errors.{GoError}
use gtd_api.Run.Keeps.{Keeps, keeps_rules}
use gtd_api.Transaction.Model.{Transaction}
use gtd_api.Transaction.Store.{
  Env, Effect, saved, notified_status, callback_started, uncached, after_save,
}
use gtd_api.Transaction.Settle.{Handled, settle, keep_going}

abbrev pub IsBookkeeping : Effect → Type 0
IsBookkeeping (saved t e) = Unit
IsBookkeeping (notified_status t) = Unit
IsBookkeeping (callback_started t event) = Unit
IsBookkeeping (uncached d) = Unit
IsBookkeeping _ = ◌≡◌ true false

pub after_save-IsBookkeeping :
    (o : Option GoError) (r : Handled)
    → Keeps IsBookkeeping r
    → Keeps IsBookkeeping (after_save o r)
after_save-IsBookkeeping none r h = h
after_save-IsBookkeeping (some e) r h = search keeps_rules

pub settle-IsBookkeeping :
    (env : Env) (t : Transaction) (event : String) → Keeps IsBookkeeping (settle env t event)
unfolding settle
settle-IsBookkeeping env t event = search (keeps_rules, after_save-IsBookkeeping)

pub keep_going-IsBookkeeping :
    (env : Env) (t : Transaction) → Keeps IsBookkeeping (keep_going env t)
unfolding keep_going
keep_going-IsBookkeeping env t = search (keeps_rules, after_save-IsBookkeeping)

-- An ending, or the choice of one.
pub Keeps-weaken :
    (P Q : Effect → Type 0) (r : Handled) → ((e : Effect) → P e → Q e) → Keeps P r → Keeps Q r
Keeps-weaken P Q r f h = record { all = All-weaken P Q r.effects f h.all }
