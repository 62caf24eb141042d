-- ===== src/Run/Keeps.antt =====
-- What every effect of an operation satisfies, one rule for each way to build an operation.
use gtd_api.Prelude.{◌≡◌, refl, Bool, true, false, Option, none, some, All, if◌then◌else◌}
use gtd_api.Errors.{GoError, Result}
use gtd_api.Run.{Run, return_ok, fail, emit, emit_if, write}

pub record Keeps {E A : Type 0} (P : E → Type 0) (r : Run E A) : Type 0 where
  pub all : All P r.effects

module _ {E A : Type 0} {P : E → Type 0} where
  pub Keeps-return : (a : A) → Keeps P (return_ok a)
  Keeps-return a = record { all = tt }

  pub Keeps-fail : (e : GoError) → Keeps P (fail {A = A} e)
  Keeps-fail e = record { all = tt }

  pub Keeps-emit : (e : E) (r : Run E A) → P e → Keeps P r → Keeps P (emit e r)
  Keeps-emit e r p k = record { all = (p, k.all) }

  pub Keeps-emit_if : (b : Bool) (e : E) (r : Run E A) → P e → Keeps P r → Keeps P (emit_if b e r)
  Keeps-emit_if true e r p k = Keeps-emit e r p k
  Keeps-emit_if false e r p k = k

  pub Keeps-write :
      (o : Option GoError) (e : E) (f : GoError → Run E A) (r : Run E A)
      → P e
      → ((x : GoError) → Keeps P (f x))
      → Keeps P r
      → Keeps P (write o e f r)
  Keeps-write none e f r p kf k = Keeps-emit e r p k
  Keeps-write (some x) e f r p kf k = kf x

  pub Keeps-if :
      (b : Bool) (r s : Run E A)
      → (b ≡ true → Keeps P r)
      → (b ≡ false → Keeps P s)
      → Keeps P (if b then r else s)
  Keeps-if true r s kr ks = kr refl
  Keeps-if false r s kr ks = ks refl

  -- Another outcome for the same effects.
  pub Keeps-outcome :
      {B : Type 0} (r : Run E A) (o : Result B)
      → Keeps P r
      → Keeps P (record { effects = r.effects; outcome = o })
  Keeps-outcome r o k = record { all = k.all }

pub ruleset keeps_rules =
    (Keeps-return, Keeps-fail, Keeps-emit, Keeps-emit_if, Keeps-write, Keeps-if, Keeps-outcome)
