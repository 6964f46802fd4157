-- ===== src/Prelude/Result.antt =====
-- Go's error results. `err` is a non-nil error; what was written before it is rolled back or was
-- never written, so no state comes back beside it.
use Prim.Native.String.{String}
use mathlib.Core.Path.{◌≡◌, refl}
use mathlib.Core.Logic.{◌⊎◌, inl, inr}
use mathlib.Core.Bool.{Bool, true, false}
use mathlib.Core.Option.{Option, none, some}

-- `no_rows` is sql.ErrNoRows, `canceled` the error of a done context, `unique` and `foreign_key`
-- SQLite's constraint errors, `engine` any other error of the engine or the driver, and `wrap` is
-- `fmt.Errorf("…: %w", e)`.
pub data Error : Type 0 where
  no_rows canceled foreign_key no_available_tokens : Error
  unique : String → Error
  engine : String → Error
  wrap : String → Error → Error

pub data Result {ℓ} (A : Type ℓ) : Type ℓ where
  ok : A → Result A
  err : Error → Result A

abbrev pub wrapped {ℓ} : {A : Type ℓ} → String → Result A → Result A
wrapped s (ok a) = ok a
wrapped s (err e) = err (wrap s e)

-- A call that fails with `e`, or runs.
abbrev pub attempt : Option Error → Result (Unit {0})
attempt none = ok tt
attempt (some e) = err e

pub Result-cases {ℓ} :
    {A : Type ℓ} (r : Result A) → ((a : A) × (r ≡ ok a)) ⊎ ((x : Error) × (r ≡ err x))
Result-cases (ok a) = inl (a, refl)
Result-cases (err x) = inr (x, refl)

-- `err == sql.ErrNoRows`: a wrapped error is another one.
abbrev pub is_no_rows : Error → Bool
is_no_rows no_rows = true
is_no_rows canceled = false
is_no_rows foreign_key = false
is_no_rows no_available_tokens = false
is_no_rows (unique column) = false
is_no_rows (engine text) = false
is_no_rows (wrap text e) = false
