-- ===== src/Run/Returns.antt =====
-- What the outcome of an operation satisfies, one rule for each way to build an operation.
use gtd_api.Prelude.{◌≡◌, refl, Bool, true, false, Option, none, some, if◌then◌else◌}
use gtd_api.Errors.{GoError, Result, ok, err}
use gtd_api.Run.{Run, return_ok, fail, emit, write}

pub record Returns {E A : Type 0} (Q : Result A → Type 0) (r : Run E A) : Type 0 where
  pub holds : Q r.outcome

module _ {E A : Type 0} {Q : Result A → Type 0} where
  pub Returns-ok : (a : A) → Q (ok a) → Returns Q (return_ok {E = E} a)
  Returns-ok a h = record { holds = h }

  pub Returns-fail : (e : GoError) → Q (err e) → Returns Q (fail {E = E} e)
  Returns-fail e h = record { holds = h }

  pub Returns-emit : (e : E) (r : Run E A) → Returns Q r → Returns Q (emit e r)
  Returns-emit e r h = record { holds = h.holds }

  pub Returns-write :
      (o : Option GoError) (e : E) (f : GoError → Run E A) (r : Run E A)
      → ((x : GoError) → Returns Q (f x))
      → Returns Q r
      → Returns Q (write o e f r)
  Returns-write none e f r h k = Returns-emit e r k
  Returns-write (some x) e f r h k = h x

  pub Returns-if :
      (b : Bool) (r s : Run E A)
      → (b ≡ true → Returns Q r)
      → (b ≡ false → Returns Q s)
      → Returns Q (if b then r else s)
  Returns-if true r s h k = h refl
  Returns-if false r s h k = k refl

pub ruleset returns_rules = (Returns-ok, Returns-fail, Returns-emit, Returns-write, Returns-if)
