-- ===== src/Examples/Spells.antt =====
-- The theorem on lasting bindings at a cache as a list and a short history.
use claude_gate.Prelude.{
  ℕ, ◌<◌, String, ◌≡◌, refl, Bool, true, false, ◌&&◌, ◌==◌, some, none, List, [], ◌∷◌, Option,
  arith, leb, if◌then◌else◌, eq_iff, eq_refl, pos,
}
use claude_gate.Prelude.Result.{ok}
use claude_gate.Token.Cache.{IsLasting}
use claude_gate.Token.Sticky
use claude_gate.Token.Manager.{Manager, resolve_token, resolve_round_robin}
use claude_gate.Token.Pool.{get_by_id, select_token}
use claude_gate.Admin.Routes.{updates, handle}
use claude_gate.Console.{on_pool_changed}
use claude_gate.Store.Cascade.{gate}
use claude_gate.Store.Table.{first, exists, update}
use claude_gate.Store.Sticky.{upsert_sticky_session, get_sticky_session}
use claude_gate.Console.Affinity.{
  administers, resolves, cleans, Spell, begun, and_then, resolve_token-lasting,
}
use claude_gate.Examples.{simple_engine, calm, Item, look_up, list_cache}
use claude_gate.Examples.Tokens.{token_1, token_2, manager}
use claude_gate.Examples.Consoles.{codecs, draws, asked}

abbrev outlives : ℕ → Option ℕ → Bool
outlives until none = true
outlives until (some t) = leb until t

lasting : List Item → String → String → ℕ → Bool
lasting [] key value until = false
lasting (x ∷ xs) key value until =
    if x.key == key
    then (x.value == value) && outlives until x.until
    else lasting xs key value until

found :
    (c : List Item) (key value : String) (now until : ℕ)
    → now < until
    → lasting c key value until ≡ true
    → look_up key now c ≡ some value
unfolding lasting look_up
found [] key value now until early h = absurd (ground arith)
found (x ∷ xs) key value now until early h =
    grind (arith, found xs key value now until early, eq_iff x.value value)

list_cache-IsLasting : IsLasting list_cache
unfolding lasting
list_cache-IsLasting = record {
  lasts = lasting;
  lasts-set = λ c k v ttl now until le. ground (arith, eq_refl k, eq_refl v);
  lasts-set_ne = λ c k v j w ttl now until ne h. ground (arith, eq_iff j k);
  lasts-get = λ c k v j now until early h. h;
  get-lasts = found;
}

-- "g1" is bound to the second token for 60 from 1 on; then "g2" is resolved, the database is cleaned
-- up, a gate token is renamed and "g1" itself is resolved.
abbrev bound : Manager (List Item)
bound = record manager {
  sticky = (Sticky.bind simple_engine list_cache (calm 1) "g1" "r2" (pos 60) manager.sticky).1;
}

abbrev other : Manager (List Item)
other = (resolve_token simple_engine list_cache (calm 2) (calm 2) "g2" bound).1

abbrev cleaned : Manager (List Item)
cleaned = record other {
  sticky = Sticky.cleanup_tick simple_engine list_cache (calm 3) other.sticky;
}

abbrev renamed : Manager (List Item)
renamed =
    (handle codecs (on_pool_changed 4) simple_engine (calm 4) draws (updates gate) asked cleaned).1

abbrev again : Manager (List Item)
again = (resolve_token simple_engine list_cache (calm 5) (calm 5) "g1" renamed).1

listed :
    (get_by_id bound.pool "r2" ≡ some token_2)
    × (get_by_id renamed.pool "r2" ≡ some token_2)
    × (get_by_id again.pool "r2" ≡ some token_2)
unfolding get_by_id first token_1 token_2 handle resolve_token Sticky.resolve look_up Sticky.bind
    upsert_sticky_session exists get_sticky_session update resolve_round_robin select_token
    Sticky.cleanup_tick
listed = (refl, refl, refl)

bound_done :
    (Sticky.bind simple_engine list_cache (calm 1) "g1" "r2" (pos 60) manager.sticky).0 ≡ ok tt
unfolding Sticky.bind upsert_sticky_session exists
bound_done = refl

spell : Spell codecs simple_engine list_cache list_cache-IsLasting "g1" "r2" 61 bound again
spell =
    and_then
      (and_then
        (and_then
          (and_then begun (resolves (calm 2) (calm 2) "g2") (omega arith, (token_2, listed.0)))
          (cleans (calm 3)) tt)
        (administers (calm 4) draws (updates gate) asked) tt)
      (resolves (calm 5) (calm 5) "g1") (omega arith, (token_2, listed.1))

resolve_token-lasting_example :
    ((resolve_token simple_engine list_cache (calm 60) (calm 60) "g1" again).0 ≡ ok token_2)
    × ((resolve_token simple_engine list_cache (calm 60) (calm 60) "g1" again).1.pool ≡ again.pool)
resolve_token-lasting_example =
    resolve_token-lasting codecs simple_engine list_cache list_cache-IsLasting (calm 1) (calm 60)
      (calm 60) "g1" "r2" 60 token_2 manager again bound_done spell (omega arith) listed.2
