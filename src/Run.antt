-- ===== src/Run.antt =====
-- How the models write an operation of a service: the effects that it has outside, in order, and
-- what it returns. `E` is the component's type of effects.
pub mod Keeps
pub mod Returns
use gtd_api.Prelude.{Bool, true, false, Option, none, some, List, [], ◌∷◌}
use gtd_api.Errors.{GoError, Result, ok, err}

pub record Run (E A : Type 0) : Type 0 where
  pub effects : List E
  pub outcome : Result A

module _ {E A : Type 0} where
  abbrev pub return_ok : A → Run E A
  return_ok a = record { effects = []; outcome = ok a }

  abbrev pub fail : GoError → Run E A
  fail e = record { effects = []; outcome = err e }

  abbrev pub emit : E → Run E A → Run E A
  emit e r = record { effects = e ∷ r.effects; outcome = r.outcome }

  abbrev pub emit_if : Bool → E → Run E A → Run E A
  emit_if true e r = emit e r
  emit_if false e r = r

  -- A write that the database may refuse: the answer, the effect of a success, and what follows each.
  abbrev pub write : Option GoError → E → (GoError → Run E A) → Run E A → Run E A
  write none e on_error next = emit e next
  write (some x) e on_error next = on_error x
