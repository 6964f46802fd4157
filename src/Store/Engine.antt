-- ===== src/Store/Engine.antt =====
-- What the store relies on and this repository does not hold: SQLite, its driver, the random source
-- and the clock. `Engine` is a parameter of every operation; `Io` is what one operation meets when
-- it runs.
use mathlib.Core.List.{Perm}
use claude_gate.Prelude.{
  ◌+◌, ◌^◌, ◌<◌, ◌≤◌, text_lt, true, ℕ, String, ◌≡◌, Bool, false, Option, none, some, List,
  if◌then◌else◌,
}
use claude_gate.Prelude.Result.{Error, Result, err, canceled, attempt}
use claude_gate.Store.Rows.{RealRow, GateRow}

pub record Engine : Type 0 where
  -- datetime('now') at an instant
  pub datetime : ℕ → String
  -- the text that the driver binds for a time.Time, and the time that it reads from a text
  pub bind_time : ℕ → String
  pub read_time : String → Option ℕ
  -- `+` on INTEGER columns, and SUM, which fails on overflow
  pub add : ℕ → ℕ → ℕ
  pub sum : List ℕ → Option ℕ
  -- ORDER BY created_at, and the same with DESC; equal times come in some order, and nothing is assumed
  -- of it
  pub order_real : List RealRow → List RealRow
  pub order_real_desc : List RealRow → List RealRow
  pub order_gate_desc : List GateRow → List GateRow

-- The calls of database/sql that an operation makes; `statement n` is its n-th statement.
pub data Call : Type 0 where
  begin_tx prepare_stmt commit_tx rows_affected read_rows : Call
  statement : ℕ → Call

-- `done` tells that the operation's context is done before it; `fault c` is the error with which its
-- call `c` ends, `none` if the call runs; `now` is the clock.
pub record Io : Type 0 where
  pub now : ℕ
  pub done : Bool
  pub fault : Call → Option Error

-- A call of database/sql whose context is done returns the context's error and does nothing.
abbrev pub call : Io → Call → Result (Unit {0})
call io c = if io.done then err canceled else attempt (io.fault c)

-- No call of the operation fails in the engine.
pub record IsCalm (io : Io) : Type 0 where
  pub live : io.done ≡ false
  pub quiet : (c : Call) → io.fault c ≡ none

-- What is documented of the engine: ORDER BY reorders; `+` and SUM are exact while the result is a
-- nonnegative int64; the driver reads back the time that it binds; and, as texts, the clock's
-- seconds do not come after a time that the clock has not passed.
pub record IsSql (e : Engine) : Type 0 where
  pub order_real_perm : (rs : List RealRow) → Perm (e.order_real rs) rs
  pub order_real_desc_perm : (rs : List RealRow) → Perm (e.order_real_desc rs) rs
  pub order_gate_desc_perm : (rs : List GateRow) → Perm (e.order_gate_desc rs) rs
  pub add_exact : (a b : ℕ) → a + b < 2 ^ 63 → e.add a b ≡ a + b
  pub read-bind : (t : ℕ) → e.read_time (e.bind_time t) ≡ some t
  pub bind_after : (now t : ℕ) → now ≤ t → text_lt (e.datetime now) (e.bind_time t) ≡ true
