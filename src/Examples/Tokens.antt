-- ===== src/Examples/Tokens.antt =====
-- The theorems on the pool and the manager at a manager of the sample database.
use mathlib.Core.List.{Mem}
use claude_gate.Token.Manager.Excluded.{failed_not_resolved}
use claude_gate.Store.RealTokens.{
  increment_real_token_failure, update_real, get_real_token, set_real_token_active,
  list_active_real_tokens, is_usable,
}
use claude_gate.Store.Statements.{affecting, bool_to_int}
use claude_gate.Store.Table.{select, update, count, exists, first}
use claude_gate.Token.Manager.{
  refresh_pool, Manager, resolve_token, resolve_round_robin, record_failure, refresh, fire_refresh,
  pool_refresh_debounce,
}
use claude_gate.Prelude.{
  lt_ℤ, ◌+◌, ◌==◌, ◌%◌, String, ◌≡◌, ◌≢◌, ◌↔◌, refl, Bool, true, none, some, List, [], ◌∷◌, ◌++◌,
  map, arith, pos, le_ℤ, take, drop, length,
}
use claude_gate.Prelude.Result.{ok}
use claude_gate.Store.Rows.{RealToken, scan_real_token}
use claude_gate.Store.Sticky.{get_sticky_session, is_live, upsert_sticky, upsert_sticky_session}
use claude_gate.Store.Calm.{find_real}
use claude_gate.Token.Pool.{TokenPool, select_loop, select_token, get_by_id}
use claude_gate.Token.Pool.Rotation.{select_times, select_times-rotation}
use claude_gate.Token.Sticky
use claude_gate.Token.Sticky.{StickyManager}
use claude_gate.Token.Manager.Resolve.{resolve_token-total}
use claude_gate.Token.Manager.Affinity.{resolve_token-restart}
use claude_gate.Token.Manager.Failures.{failed_row, record_failure_exact}
use claude_gate.Token.Manager.Refresh.{Serves, refresh_exact, refresh_runs}
use claude_gate.Examples.{
  simple_engine, simple_engine-IsSql, calm, calm-IsCalm, sample, real_1, real_2, Item, look_up,
  list_cache,
}

unfoldable pub token_1 : RealToken
unfolding scan_real_token
token_1 = scan_real_token real_1

unfoldable pub token_2 : RealToken
unfolding scan_real_token
token_2 = scan_real_token real_2

abbrev two_tokens : TokenPool
two_tokens = record { tokens = token_1 ∷ token_2 ∷ []; counter = 3; max_failures = pos 5 }

-- The exclusion of the first token.
abbrev not_first : String → Bool
not_first id = id == "r1"

selects_second : (select_token not_first two_tokens).0 ≡ ok token_2
unfolding select_token select_loop token_1 token_2 scan_real_token
selects_second = refl

select_times-rotation_example :
    (select_times (length two_tokens.tokens) two_tokens).0
    ≡ map ok (
        drop (two_tokens.counter % length two_tokens.tokens) two_tokens.tokens
        ++ take (two_tokens.counter % length two_tokens.tokens) two_tokens.tokens)
select_times-rotation_example = select_times-rotation two_tokens (omega arith) (omega arith)

abbrev pub manager : Manager (List Item)
manager = record {
  pool = two_tokens;
  sticky = record { store = sample; cache = [] };
  sticky_ttl = pos 60;
  max_failures = pos 5;
  refresh_at = none;
}

resolves_second :
    (resolve_token simple_engine list_cache (calm 1) (calm 1) "g2" manager).0 ≡ ok token_2
unfolding resolve_token Sticky.resolve get_sticky_session is_live first look_up resolve_round_robin
    select_token select_loop token_1 token_2 scan_real_token
resolves_second = refl

resolve_token-total_example :
    (t : RealToken) × ((resolve_token simple_engine list_cache (calm 1) (calm 1) "g2" manager).0
      ≡ ok t)
resolve_token-total_example =
    resolve_token-total simple_engine list_cache (calm 1) (calm 1) "g2" manager (omega arith)
      (omega arith)

-- The manager's sticky part after "g1" is bound to the second token for 60 from 1 on.
abbrev bound : StickyManager (List Item)
bound = (Sticky.bind simple_engine list_cache (calm 1) "g1" token_2.id (pos 60) manager.sticky).1

binds_second :
    Sticky.bind simple_engine list_cache (calm 1) "g1" token_2.id (pos 60) manager.sticky
    ≡ (ok tt, bound)
unfolding Sticky.bind upsert_sticky_session upsert_sticky exists token_2 scan_real_token
binds_second = refl

second_pooled : get_by_id two_tokens token_2.id ≡ some token_2
unfolding get_by_id first token_1 token_2 scan_real_token
second_pooled = refl

cache_empty : (list_cache.get "g1" 5 []).0 ≡ none
unfolding look_up
cache_empty = refl

resolve_token-restart_example :
    let restarted = record manager { sticky = record bound { cache = [] } } in
    ((resolve_token simple_engine list_cache (calm 5) (calm 5) "g1" restarted).0 ≡ ok token_2)
    × ((resolve_token simple_engine list_cache (calm 5) (calm 5) "g1" restarted).1.pool
        ≡ manager.pool)
resolve_token-restart_example =
    resolve_token-restart simple_engine list_cache manager bound [] (calm 1) (calm 5) (calm 5) "g1"
      token_2 60 simple_engine-IsSql binds_second cache_empty (calm-IsCalm 5) (omega arith)
      second_pooled

first_found : find_real "r1" sample ≡ some real_1
unfolding first
first_found = refl

record_failure_exact_example :
    ((record_failure simple_engine (calm 1) (calm 2) (calm 3) "r1" manager).0 ≡ ok tt)
    × (find_real "r1"
          (record_failure simple_engine (calm 1) (calm 2) (calm 3) "r1" manager).1.sticky.store
        ≡ some (failed_row simple_engine (pos 5) 1 3 real_1))
    × ((other : String)
        → "r1" ≢ other
        → find_real other
            (record_failure simple_engine (calm 1) (calm 2) (calm 3) "r1" manager).1.sticky.store
          ≡ find_real other sample)
    × ((record_failure simple_engine (calm 1) (calm 2) (calm 3) "r1" manager).1.refresh_at
        ≡ some (3 + pool_refresh_debounce))
record_failure_exact_example =
    record_failure_exact simple_engine (calm 1) (calm 2) (calm 3) "r1" manager real_1
      (calm-IsCalm 1) (calm-IsCalm 2) (calm-IsCalm 3) first_found

refresh_exact_example :
    Mem token_2 (refresh simple_engine (calm 1) manager).1.pool.tokens
    ↔ ∥ Serves (pos 5) sample token_2 ∥₁
refresh_exact_example =
    refresh_exact simple_engine (calm 1) manager token_2 simple_engine-IsSql
      (refresh_runs simple_engine (calm 1) manager (calm-IsCalm 1))

at_limit : le_ℤ (pos 5) (4 + 1) ≡ true
unfolding le_ℤ
at_limit = refl

-- The manager after the failure and the refresh.
abbrev retired : Manager (List Item)
retired =
    fire_refresh simple_engine (calm 200000000)
      (record_failure simple_engine (calm 1) (calm 2) (calm 3) "r1" manager).1

resolves_other :
    (resolve_token simple_engine list_cache
      (calm 200000001)
      (calm 200000001)
      "g2"
      (record retired { sticky = manager.sticky })).0
    ≡ ok token_2
unfolding resolve_token Sticky.resolve get_sticky_session is_live first look_up resolve_round_robin
    select_token select_loop token_1 token_2 scan_real_token fire_refresh refresh record_failure
    increment_real_token_failure update_real get_real_token set_real_token_active affecting
    list_active_real_tokens is_usable select update count refresh_pool le_ℤ lt_ℤ bool_to_int
resolves_other = refl

failed_not_resolved_example : token_2.id ≢ "r1"
failed_not_resolved_example =
    failed_not_resolved simple_engine list_cache (calm 1) (calm 2) (calm 3) (calm 200000000) manager
      "r1" real_1 (calm 200000001) (calm 200000001) "g2" manager.sticky token_2 simple_engine-IsSql
      (calm-IsCalm 1) (calm-IsCalm 2) (calm-IsCalm 3) (calm-IsCalm 200000000) first_found at_limit
      (omega arith) resolves_other
