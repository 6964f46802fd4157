-- ===== src/Prelude/Keeps.antt =====
-- Invariants of operations: one rule for each way in which an operation is put together. A rule
-- holds whatever error the operation ends with.
use Prim.Native.String.{String}
use mathlib.Core.Bool.{Bool, true, false}
use claude_gate.Prelude.Tests.{if◌then◌else◌}
use claude_gate.Prelude.Result.{Error, Result, ok, err}
use claude_gate.Prelude.Exec.{Exec, pure, raise, lift, gets, wrapping, modify, ◌>>=◌}

pub record Keeps {S A : Type 0} (P : S → Type 0) (m : Exec S A) : Type 0 where
  pub after : (s : S) → P s → P (m s).1

module _ {S A : Type 0} {P : S → Type 0} where
  pub Keeps-pure : (a : A) → Keeps P (pure a)
  Keeps-pure a = record { after = λ s h. h }

  pub Keeps-raise : (e : Error) → Keeps P (raise {A = A} e)
  Keeps-raise e = record { after = λ s h. h }

  pub Keeps-lift : (r : Result A) → Keeps P (lift r)
  Keeps-lift r = record { after = λ s h. h }

  pub Keeps-gets : (f : S → A) → Keeps P (gets f)
  Keeps-gets f = record { after = λ s h. h }

  pub Keeps-wrapping : (text : String) {m : Exec S A} → Keeps P m → Keeps P (wrapping text m)
  Keeps-wrapping text k = record { after = k.after }

  pub Keeps-if : (b : Bool) {m n : Exec S A} → Keeps P m → Keeps P n → Keeps P (if b then m else n)
  Keeps-if true k l = k
  Keeps-if false k l = l

module _ {S : Type 0} {P : S → Type 0} where
  pub Keeps-modify : (f : S → S) → ((s : S) → P s → P (f s)) → Keeps P (modify f)
  Keeps-modify f h = record { after = h }

module _ {S A B : Type 0} {P : S → Type 0} where
  Keeps-continue :
      (f : A → Exec S B) (r : Result A) (s : S)
      → ((a : A) → Keeps P (f a))
      → P s
      → P (claude_gate.Prelude.Exec.continue r f s).1
  Keeps-continue f (ok a) s k h = (k a).after s h
  Keeps-continue f (err e) s k h = h

  pub Keeps-bind :
      {m : Exec S A} {f : A → Exec S B} → Keeps P m → ((a : A) → Keeps P (f a)) → Keeps P (m >>= f)
  Keeps-bind {m} {f} k l = record {
    after = λ s h. Keeps-continue f (m s).0 (m s).1 l (k.after s h);
  }

pub ruleset keeps_rules = (
  Keeps-pure, Keeps-raise, Keeps-lift, Keeps-gets, Keeps-wrapping, Keeps-if, Keeps-modify,
  Keeps-bind,
)
