-- ===== src/Examples/Consoles.antt =====
-- The theorems on the admin API and the dashboard at a console with a cache of sessions as a list.
use claude_gate.Prelude.{
  pos, ℕ, ◌+◌, String, ◌≡◌, ◌≢◌, refl, Bool, false, ◌==◌, ◌||◌, eq_iff, eq_refl, none, some, List,
  [], ◌∷◌, arith, if◌then◌else◌, ltb, lt_ℤ,
}
use claude_gate.Prelude.Bytes.{cut_prefix}
use claude_gate.Prelude.Result.{ok}
use claude_gate.Store.Table.{select, update, count, first}
use claude_gate.Store.Rows.{scan_real_token}
use claude_gate.Store.Statements.{affecting, bool_to_int}
use claude_gate.Store.RealTokens.{
  update_real, set_real_token_active, is_usable, list_active_real_tokens,
}
use claude_gate.Store.Sticky.{get_sticky_session, is_live}
use claude_gate.Store.Cascade.{real}
use claude_gate.Token.Pool.{select_token, select_loop}
use claude_gate.Token.Sticky
use claude_gate.Token.Manager.{
  start, new_manager, Manager, refresh, refresh_pool, fire_refresh, resolve_token,
  resolve_round_robin,
}
use claude_gate.Web.Sessions.{SessionApi, IsSessions, session_ttl}
use claude_gate.Web.Sessions.SignedIn.{web_run, WebEvent, logs_in, logs_out, signed_in}
use claude_gate.Admin.Http.{AdminRequest, Codecs}
use claude_gate.Admin.Tokens.{set_token_active}
use claude_gate.Admin.Creation.{Draws}
use claude_gate.Admin.Routes.{bearer_matches, deactivates, handle}
use claude_gate.Console.{Console, Demand, asks_api, answer, on_pool_changed}
use claude_gate.Console.Access.{refusal, cookie_signed_in, answer_unauthorized}
use claude_gate.Console.Retirement.{deactivation, handle-not_resolved}
use claude_gate.Console.Live.{Live, IsConverging}
use claude_gate.Console.Converge.{
  History, here, next, works, reads, assigns, administers, resolves, History-IsConverging,
}
use claude_gate.Examples.{
  simple_engine, simple_engine-IsSql, calm, calm-IsCalm, sample, sample-IsWellFormed, list_cache,
  Item, look_up, untally,
}
use claude_gate.Token.Manager.{assign_tokens, is_due}
use claude_gate.Token.Pool.{new_token_pool}
use claude_gate.Store.Sticky.{upsert_sticky_session, upsert_sticky}
use claude_gate.Store.Table.{exists}
use claude_gate.Prelude.{true}
use claude_gate.Examples.Tokens.{token_1, token_2, manager}

-- The keys with the instants at which they were set.
abbrev pub Logins : Type 0
Logins = List (String × ℕ)

abbrev holds : Logins → String → Bool
holds [] k = false
holds ((j, t) ∷ c) k = (j == k) || holds c k

abbrev found : String → ℕ → Logins → Bool
found k now [] = false
found k now ((j, t) ∷ c) = if j == k then ltb now (t + session_ttl) else found k now c

abbrev without : String → Logins → Logins
without k [] = []
without k ((j, t) ∷ c) = let rest = without k c in if j == k then rest else (j, t) ∷ rest

abbrev pub list_sessions : SessionApi Logins
list_sessions = record {
  new = [];
  get = λ k now c. (found k now c, c);
  set = λ k now c. (k, now) ∷ c;
  delete = without;
}

holds-without : (c : Logins) (k : String) → holds (without k c) k ≡ false
holds-without [] k = refl
holds-without ((j, t) ∷ c) k = ground (arith, holds-without c k)

holds-without_ne : (c : Logins) (k j : String) → j ≢ k → holds (without j c) k ≡ holds c k
holds-without_ne [] k j ne = refl
holds-without_ne ((i, t) ∷ c) k j ne =
    ground (arith, holds-without_ne c k j ne, eq_iff i j, eq_iff i k)

found-holds : (c : Logins) (k : String) (now : ℕ) → holds c k ≡ false → found k now c ≡ false
found-holds [] k now h = refl
found-holds ((j, t) ∷ c) k now h = ground (arith, found-holds c k now)

list_sessions-IsSessions : IsSessions list_sessions
list_sessions-IsSessions = record {
  holds = holds;
  holds-new = λ k. refl;
  holds-set = λ c k j now ne. ground (arith, eq_iff j k);
  holds-delete = holds-without;
  holds-delete_ne = holds-without_ne;
  holds-get = λ c k j now h. h;
  get-holds = found-holds;
  get-set_self = λ c k now later le lt. ground (arith, eq_refl k);
}

-- No body decodes but as the new name "n".
abbrev pub codecs : Codecs
codecs = record {
  create_real = λ body. none;
  create_gate = λ body. none;
  update = λ body. some (record { name = "n" });
  parse_time = λ text. none;
  with_query = λ path values. some path;
}

abbrev pub draws : Draws
draws = record { id = "d1"; generated = "gate-d1" }

abbrev pub asked : AdminRequest
asked = record {
  authorization = "Bearer wrong";
  content_type = "application/json";
  hx_request = "";
  cookie = some "c1";
  id = "r1";
  since = "";
  form = λ key. "";
  body = [];
}

-- The login that drew "c1" was followed by a logout.
abbrev history : List WebEvent
history = logs_in 1 "c1" "secret" ∷ logs_in 2 "c2" "guess" ∷ logs_out (some "c1") ∷ []

wrong_bearer : bearer_matches "secret" (cut_prefix asked.authorization "Bearer ") ≡ false
unfolding cut_prefix
wrong_bearer = refl

logged_out : cookie_signed_in "secret" history asked.cookie ≡ false
unfolding signed_in
logged_out = refl

abbrev question : Demand
question = asks_api (calm 3) draws (deactivates real) asked

abbrev console : Console (List Item) Logins
console = record { manager = manager; sessions = web_run list_sessions "secret" history [] }

answer_unauthorized_example :
    ((answer codecs simple_engine list_sessions "secret" question console).0 ≡ refusal question)
    × ((answer codecs simple_engine list_sessions "secret" question console).1.manager ≡ manager)
answer_unauthorized_example =
    answer_unauthorized codecs simple_engine list_sessions list_sessions-IsSessions "secret"
      question manager history wrong_bearer logged_out

switched_off : (set_real_token_active simple_engine (calm 3) "r1" false sample).0 ≡ ok tt
unfolding set_real_token_active affecting update_real count
switched_off = refl

-- The manager after the request and the refresh.
abbrev refreshed : Manager (List Item)
refreshed =
    fire_refresh simple_engine (calm 200000000)
      (handle codecs (on_pool_changed 3) simple_engine (calm 3) draws (deactivates real) asked
        manager).1

resolves_second :
    (resolve_token simple_engine list_cache
      (calm 200000001)
      (calm 200000001)
      "g1"
      (record refreshed { sticky = manager.sticky })).0
    ≡ ok token_2
unfolding resolve_token Sticky.resolve get_sticky_session is_live first look_up resolve_round_robin
    select_token select_loop token_1 token_2 scan_real_token fire_refresh refresh handle
    set_token_active set_real_token_active affecting update_real list_active_real_tokens is_usable
    select update count refresh_pool lt_ℤ bool_to_int untally
resolves_second = refl

handle-not_resolved_example : token_2.id ≢ "r1"
handle-not_resolved_example =
    handle-not_resolved codecs simple_engine (calm 3) draws asked manager list_cache deactivation
      (calm 200000000) (calm 200000001) (calm 200000001) "g1" manager.sticky token_2
      simple_engine-IsSql (calm-IsCalm 200000000) switched_off (omega arith) resolves_second

-- The manager as it starts on the sample, and as it is after a gate token was resolved, a real token
-- was switched off and the refresh has run.
abbrev begun : Manager (List Item)
begun = (start simple_engine (calm 1) (new_manager sample [] (pos 5) (pos 60))).1

abbrev resolved : Manager (List Item)
resolved = (resolve_token simple_engine list_cache (calm 2) (calm 2) "g1" begun).1

abbrev switched : Manager (List Item)
switched =
    (handle codecs (on_pool_changed 3) simple_engine (calm 3) draws (deactivates real) asked
      resolved).1

-- Between the refresh's two halves, another request is resolved.
abbrev read_out : Manager (List Item)
read_out = record switched { refresh_at = none }

abbrev ended : Manager (List Item)
ended =
    assign_tokens (token_2 ∷ [])
      (resolve_token simple_engine list_cache (calm 200000001) (calm 200000001) "g2" read_out).1

rows_read :
    (list_active_real_tokens simple_engine
      (calm 200000000)
      switched.pool.max_failures
      switched.sticky.store).0
    ≡ ok (token_2 ∷ [])
unfolding list_active_real_tokens refresh_pool is_usable select handle set_token_active
    set_real_token_active affecting update_real update count resolve_token Sticky.resolve look_up
    start refresh new_manager get_sticky_session is_live first untally resolve_round_robin
    select_token select_loop lt_ℤ Sticky.bind upsert_sticky_session upsert_sticky exists
    scan_real_token token_1 token_2 bool_to_int new_token_pool
rows_read = refl

is_set : is_due 200000000 switched.refresh_at ≡ true
unfolding list_active_real_tokens refresh_pool is_usable select handle set_token_active
    set_real_token_active affecting update_real update count resolve_token Sticky.resolve look_up
    start refresh new_manager get_sticky_session is_live first untally resolve_round_robin
    select_token select_loop lt_ℤ Sticky.bind upsert_sticky_session upsert_sticky exists
    scan_real_token token_1 token_2 bool_to_int new_token_pool
is_set = refl

abbrev alone : Manager (List Item) → Live (List Item)
alone m = record { manager = m; reading = none }

abbrev past :
    History codecs simple_engine list_cache
      (alone begun)
      (record { manager = ended; reading = none })
past =
    next
      (next
        (next
          (next (next here (works (resolves (calm 2) (calm 2) "g1")))
            (works (administers (calm 3) draws (deactivates real) asked refl)))
          (reads (calm 200000000) (token_2 ∷ []) (calm-IsCalm 200000000) refl is_set rows_read))
        (works (resolves (calm 200000001) (calm 200000001) "g2")))
      (assigns (token_2 ∷ []) refl)

History-IsConverging_example : IsConverging ended
History-IsConverging_example =
    History-IsConverging codecs simple_engine list_cache (calm 1) sample [] (pos 5) (pos 60)
      (alone ended) simple_engine-IsSql (calm-IsCalm 1) sample-IsWellFormed past
