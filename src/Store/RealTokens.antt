-- ===== src/Store/RealTokens.antt =====
-- internal/store/real_token.go. The identifier that newID draws is an argument.
use claude_gate.Prelude.{
  ℕ, ◌+◌, String, Bool, Option, none, some, List, ◌∷◌, ◌&&◌, map, eqb, if◌then◌else◌, ℤ, lt_ℤ,
}
use claude_gate.Prelude.Result.{ok, err, no_rows, unique}
use claude_gate.Prelude.Exec.{Exec, pure, raise, lift, gets, wrapping, ◌>>=◌, ◌>>◌}
use claude_gate.Store.Table.{exists, select, first, update, count, at}
use claude_gate.Store.Rows.{Db, RealRow, RealToken, scan_real_token}
use claude_gate.Store.Engine.{Engine, Io, statement, read_rows, call}
use claude_gate.Store.Statements.{affecting, bool_to_int}

-- The row that the INSERT of CreateRealToken makes, the columns' defaults filled in.
unfoldable pub new_real_row : Engine → Io → String → String → String → String → RealRow
new_real_row e io id name access refresh = record {
  id = id;
  name = name;
  access_token = access;
  refresh_token = refresh;
  is_active = 1;
  failure_count = 0;
  last_failure_at = none;
  last_used_at = none;
  total_input_tokens = 0;
  total_output_tokens = 0;
  created_at = e.bind_time io.now;
  updated_at = e.bind_time io.now;
}

-- INSERT under the PRIMARY KEY and idx_real_tokens_access_token.
unfoldable pub insert_real : RealRow → Exec Db (Unit {0})
insert_real r db =
    if exists (at (λ x. x.id) r.id) db.real_tokens
    then (err (unique "real_tokens.id"), db)
    else if exists (at (λ x. x.access_token) r.access_token) db.real_tokens
    then (err (unique "real_tokens.access_token"), db)
    else (ok tt, record db { real_tokens = r ∷ db.real_tokens })

unfoldable pub create_real_token :
    Engine → Io → String → String → String → String → Exec Db RealToken
unfolding insert_real new_real_row
create_real_token e io id name access refresh = do
  let row = new_real_row e io id name access refresh
  wrapping "create real token" (do lift (call io (statement 0)); insert_real row)
  pure (scan_real_token row)

abbrev one_real : Option RealRow → Exec Db RealToken
one_real none = raise no_rows
one_real (some r) = pure (scan_real_token r)

unfoldable pub get_real_token : Io → String → Exec Db RealToken
get_real_token io id = do
  lift (call io (statement 0))
  r ← gets (λ db. first (at (λ x. x.id) id) db.real_tokens)
  one_real r

unfoldable pub list_real_tokens : Engine → Io → Exec Db (List RealToken)
list_real_tokens e io = do
  wrapping "list real tokens" (lift (call io (statement 0)))
  lift (call io read_rows)
  gets (λ db. map scan_real_token (e.order_real_desc db.real_tokens))

-- The WHERE clause `is_active = 1 AND failure_count < ?`.
unfoldable pub is_usable : ℤ → RealRow → Bool
is_usable max_failures r = eqb r.is_active 1 && lt_ℤ r.failure_count max_failures

unfoldable pub list_active_real_tokens : Engine → Io → ℤ → Exec Db (List RealToken)
unfolding is_usable
list_active_real_tokens e io max_failures = do
  wrapping "list active real tokens" (lift (call io (statement 0)))
  lift (call io read_rows)
  gets (λ db. map scan_real_token (e.order_real (select (is_usable max_failures) db.real_tokens)))

-- UPDATE real_tokens SET … WHERE id = ?, with the number of rows affected.
unfoldable pub update_real : String → (RealRow → RealRow) → Exec Db ℕ
update_real id set db = (
  ok (count (at (λ x. x.id) id) db.real_tokens),
  record db { real_tokens = update (at (λ x. x.id) id) set db.real_tokens },
)

unfoldable pub update_real_token : Engine → Io → String → String → Exec Db (Unit {0})
unfolding affecting update_real
update_real_token e io id name =
    affecting io "update real token" "update real token: rows affected"
      (update_real id λ r. record r { name = name; updated_at = e.datetime io.now })

unfoldable pub set_real_token_active : Engine → Io → String → Bool → Exec Db (Unit {0})
unfolding affecting update_real bool_to_int
set_real_token_active e io id active =
    let val = bool_to_int active in
    affecting io "set real token active" "set real token active: rows affected" (
      update_real id λ r. record r {
        is_active = val;
        failure_count = if eqb val 1 then 0 else r.failure_count;
        updated_at = e.datetime io.now;
      })

unfoldable pub increment_real_token_failure : Engine → Io → String → Exec Db (Unit {0})
unfolding update_real
increment_real_token_failure e io id = do
  lift (call io (statement 0))
  n ← update_real id λ r. record r {
    failure_count = r.failure_count + 1;
    last_failure_at = some (e.datetime io.now);
    updated_at = e.datetime io.now;
  }
  pure tt

unfoldable pub update_real_token_usage : Engine → Io → String → ℕ → ℕ → Exec Db (Unit {0})
unfolding update_real
update_real_token_usage e io id input output = do
  lift (call io (statement 0))
  n ← update_real id λ r. record r {
    total_input_tokens = e.add r.total_input_tokens input;
    total_output_tokens = e.add r.total_output_tokens output;
    last_used_at = some (e.datetime io.now);
    updated_at = e.datetime io.now;
  }
  pure tt

unfoldable pub get_real_token_by_access_token : Io → String → Exec Db RealToken
get_real_token_by_access_token io access = do
  lift (call io (statement 0))
  r ← gets (λ db. first (at (λ x. x.access_token) access) db.real_tokens)
  one_real r
