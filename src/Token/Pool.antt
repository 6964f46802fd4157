-- ===== src/Token/Pool.antt =====
-- internal/token/pool.go: the cached tokens and the round-robin counter.
pub mod Select
pub mod Rotation
use claude_gate.Prelude.{
  ℕ, zero, suc, ◌+◌, ◌%◌, ◌^◌, String, Bool, Option, none, some, List, eqb, if◌then◌else◌, length,
  get_elem?, ℤ, ◌==◌,
}
use claude_gate.Prelude.Result.{Result, ok, err, no_available_tokens}
use claude_gate.Prelude.Exec.{Exec, lift, gets, modify, ◌>>=◌}
use claude_gate.Store.Rows.{RealToken}
use claude_gate.Store.Table.{first, at}

pub record TokenPool : Type 0 where
  pub tokens : List RealToken
  pub counter : ℕ
  pub max_failures : ℤ

-- 2 ^ 64, where uint64 wraps.
abbrev pub u64_mod : ℕ
u64_mod = 2 ^ 64

unfoldable pub new_token_pool : ℤ → TokenPool
new_token_pool max_failures = record { tokens = List.[]; counter = 0; max_failures = max_failures }

-- A candidate that is not excluded, or what the rest of the loop finds.
abbrev pub or_next : (String → Bool) → Option RealToken → Option RealToken → Option RealToken
or_next exclude none rest = rest
or_next exclude (some t) rest = if exclude t.id then rest else some t

-- The loop of Select from round `i` with `rounds` rounds left.
unfoldable pub select_loop : List RealToken → (String → Bool) → ℕ → ℕ → ℕ → Option RealToken
select_loop tokens exclude start i zero = none
select_loop tokens exclude start i (suc rounds) =
    let rest = select_loop tokens exclude start (i + 1) rounds in
    or_next exclude (get_elem? tokens ((start + i) % u64_mod % length tokens)) rest

abbrev pub or_no_tokens : Option RealToken → Result RealToken
or_no_tokens none = err no_available_tokens
or_no_tokens (some t) = ok t

-- `exclude` is the set excludeIDs, empty for nil. Add(1) - 1 is the counter before the addition.
unfoldable pub select_token : (String → Bool) → Exec TokenPool RealToken
unfolding select_loop
select_token exclude p = if eqb (length p.tokens) 0 then (err no_available_tokens, p) else (
  or_no_tokens (select_loop p.tokens exclude p.counter 0 (length p.tokens)),
  record p { counter = (p.counter + 1) % u64_mod },
)

unfoldable pub len : TokenPool → ℕ
len p = length p.tokens

unfoldable pub get_by_id : TokenPool → String → Option RealToken
get_by_id p id = first (at (λ t. t.id) id) p.tokens
