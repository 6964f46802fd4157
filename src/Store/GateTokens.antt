-- ===== src/Store/GateTokens.antt =====
-- internal/store/gate_token.go. The identifier and the token that are drawn at random are arguments.
use claude_gate.Prelude.{ℕ, String, Bool, Option, none, some, List, ◌∷◌, map, ◌==◌, if◌then◌else◌}
use claude_gate.Prelude.Result.{ok, err, no_rows, unique}
use claude_gate.Prelude.Exec.{Exec, pure, raise, lift, gets, wrapping, ◌>>=◌, ◌>>◌}
use claude_gate.Store.Table.{exists, first, update, count, at}
use claude_gate.Store.Rows.{Db, GateRow, GateToken, scan_gate_token}
use claude_gate.Store.Engine.{Engine, Io, statement, read_rows, call}
use claude_gate.Store.Statements.{affecting, bool_to_int}

-- The row that the INSERT of CreateGateToken makes, the columns' defaults filled in.
unfoldable pub new_gate_row : Engine → Io → String → String → String → GateRow
new_gate_row e io id token name = record {
  id = id;
  token = token;
  name = name;
  is_active = 1;
  total_input_tokens = 0;
  total_output_tokens = 0;
  created_at = e.bind_time io.now;
  updated_at = e.bind_time io.now;
}

-- INSERT under the PRIMARY KEY and the UNIQUE column `token`.
unfoldable pub insert_gate : GateRow → Exec Db (Unit {0})
insert_gate r db =
    if exists (at (λ x. x.id) r.id) db.gate_tokens
    then (err (unique "gate_tokens.id"), db)
    else if exists (at (λ x. x.token) r.token) db.gate_tokens
    then (err (unique "gate_tokens.token"), db)
    else (ok tt, record db { gate_tokens = r ∷ db.gate_tokens })

-- `generated` is what generateGateToken draws.
unfoldable pub create_gate_token :
    Engine → Io → String → String → String → String → Exec Db GateToken
unfolding insert_gate new_gate_row
create_gate_token e io id generated name custom = do
  let token = if custom == "" then generated else custom
  let row = new_gate_row e io id token name
  wrapping "create gate token" (do lift (call io (statement 0)); insert_gate row)
  pure (scan_gate_token row)

abbrev one_gate : Option GateRow → Exec Db GateToken
one_gate none = raise no_rows
one_gate (some r) = pure (scan_gate_token r)

unfoldable pub get_gate_token : Io → String → Exec Db GateToken
get_gate_token io id = do
  lift (call io (statement 0))
  r ← gets (λ db. first (at (λ x. x.id) id) db.gate_tokens)
  one_gate r

unfoldable pub get_gate_token_by_token : Io → String → Exec Db GateToken
get_gate_token_by_token io token = do
  lift (call io (statement 0))
  r ← gets (λ db. first (at (λ x. x.token) token) db.gate_tokens)
  one_gate r

unfoldable pub list_gate_tokens : Engine → Io → Exec Db (List GateToken)
list_gate_tokens e io = do
  wrapping "list gate tokens" (lift (call io (statement 0)))
  lift (call io read_rows)
  gets (λ db. map scan_gate_token (e.order_gate_desc db.gate_tokens))

-- UPDATE gate_tokens SET … WHERE id = ?, with the number of rows affected.
unfoldable pub update_gate : String → (GateRow → GateRow) → Exec Db ℕ
update_gate id set db = (
  ok (count (at (λ x. x.id) id) db.gate_tokens),
  record db { gate_tokens = update (at (λ x. x.id) id) set db.gate_tokens },
)

unfoldable pub update_gate_token : Engine → Io → String → String → Exec Db (Unit {0})
unfolding affecting update_gate
update_gate_token e io id name =
    affecting io "update gate token" "update gate token: rows affected"
      (update_gate id λ r. record r { name = name; updated_at = e.datetime io.now })

unfoldable pub set_gate_token_active : Engine → Io → String → Bool → Exec Db (Unit {0})
unfolding affecting update_gate bool_to_int
set_gate_token_active e io id active =
    let val = bool_to_int active in
    affecting io "set gate token active" "set gate token active: rows affected"
      (update_gate id λ r. record r { is_active = val; updated_at = e.datetime io.now })

unfoldable pub update_gate_token_usage : Engine → Io → String → ℕ → ℕ → Exec Db (Unit {0})
unfolding update_gate
update_gate_token_usage e io id input output = do
  lift (call io (statement 0))
  n ← update_gate id λ r. record r {
    total_input_tokens = e.add r.total_input_tokens input;
    total_output_tokens = e.add r.total_output_tokens output;
    updated_at = e.datetime io.now;
  }
  pure tt
