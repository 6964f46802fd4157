-- ===== src/Examples.antt =====
-- Test data: an engine, a cache and a database on which the operations run, and the applications of
-- the theorems to them in the modules below.
mod Stores
mod Tokens
mod Proxies
mod Handlers
mod Metered
mod Consoles
mod Visits
mod Pipelines
mod Sorting
mod Starts
mod Streams
mod Spells
mod Services
mod Answers
mod Secrets
use Prim.Native.Nat.{Ordering}
use Prim.Native.Char.{nul}
use Prim.Native.String
use Prim.Native.String.compare
use mathlib.Core.List.Perm
use claude_gate.Prelude.{
  ℕ, zero, suc, ◌+◌, ◌-◌, ◌≤◌, ◌<◌, ◌^◌, String, ◌≡◌, ◌≢◌, refl, ap, Bool, true, false, ◌==◌,
  eq_iff, eq_refl, Option, none, some, List, [], ◌∷◌, arith, ℤ, pos, negsuc, lt_ℤ, if◌then◌else◌,
  ltb, text_lt,
}
use claude_gate.Prelude.Result.{Error}
use claude_gate.Store.Table.{exists}
use claude_gate.Store.Rows.{Db, RealRow, GateRow, UsageLog, StickyRow}
use claude_gate.Store.Engine.{Engine, Io, IsCalm, IsSql}
use claude_gate.Store.WellFormed.{IsWellFormed}
use claude_gate.Token.Cache.{CacheApi, IsCache}

-- An instant is written in unary behind a first character; the clock's text is empty.
tally : ℕ → String
tally zero = String.◌∷◌ nul String.[]
tally (suc n) = String.◌∷◌ nul (tally n)

chars : String → ℕ
chars String.[] = 0
chars (String.◌∷◌ c s) = suc (chars s)

unfoldable untally : String → Option ℕ
unfolding chars
untally String.[] = none
untally (String.◌∷◌ c s) = some (chars s)

abbrev suc_some : Option ℕ → Option ℕ
suc_some none = none
suc_some (some n) = some (suc n)

untally-tally : (n : ℕ) → untally (tally n) ≡ some n
unfolding untally tally
untally-tally zero = refl
untally-tally (suc n) = chars-tally n
  where
    chars-tally : (k : ℕ) → some (chars (tally k)) ≡ some (suc k)
    chars-tally zero = refl
    chars-tally (suc k) = ap suc_some (chars-tally k)

abbrev sum : List ℕ → ℕ
sum [] = 0
sum (x ∷ xs) = x + sum xs

abbrev simple_engine : Engine
simple_engine = record {
  datetime = λ _. "";
  bind_time = tally;
  read_time = untally;
  add = λ a b. a + b;
  sum = λ xs. some (sum xs);
  order_real = λ rs. rs;
  order_real_desc = λ rs. rs;
  order_gate_desc = λ rs. rs;
}

abbrev lt_of : Ordering → Bool
lt_of o = elim o [ Ordering.lt ↦ true | _ ↦ false ]

tally-after : (n : ℕ) → text_lt "" (tally n) ≡ true
unfolding tally
tally-after zero = refl
tally-after (suc n) = ap lt_of (compare.nil-cons nul (tally n))

simple_engine-IsSql : IsSql simple_engine
simple_engine-IsSql = record {
  order_real_perm = λ rs. Perm.refl rs;
  order_real_desc_perm = λ rs. Perm.refl rs;
  order_gate_desc_perm = λ rs. Perm.refl rs;
  add_exact = λ a b h. refl;
  read-bind = untally-tally;
  bind_after = λ now t h. tally-after t;
}

-- The conditions of a call at an instant in an engine that does not fail.
abbrev calm : ℕ → Io
calm now = record { now = now; done = false; fault = λ _. none }

calm-IsCalm : (now : ℕ) → IsCalm (calm now)
calm-IsCalm now = record { live = refl; quiet = λ c. refl }

-- A cache as a list of items, the newest first; `until` is the end of an item's life.
record Item : Type 0 where
  key : String
  value : String
  until : Option ℕ

abbrev life : ℤ → ℕ → Option ℕ
life (pos ttl) now = some (now + ttl)
life (negsuc d) now = none

abbrev alive : ℕ → Item → Option String
alive later x = elim x.until [
  | none ↦ some x.value
  | some t ↦ if ltb later t then some x.value else none
]

look_up : String → ℕ → List Item → Option String
look_up k later [] = none
look_up k later (x ∷ xs) = if x.key == k then alive later x else look_up k later xs

abbrev list_cache : CacheApi (List Item)
list_cache = record {
  get = λ k later c. (look_up k later c, c);
  set = λ k v ttl now c. record { key = k; value = v; until = life ttl now } ∷ c;
}

list_cache-IsCache : IsCache list_cache
unfolding look_up lt_ℤ
list_cache-IsCache = record {
  get-set_self = λ c k v ttl now later le h. self c k v ttl now later le h;
  get-set_ne = λ c k j v ttl now later ne. ground (arith, eq_iff k j);
  get-get_ne = λ c k j now later ne. refl;
}
  where
    self :
        (c : List Item) (k v : String) (ttl : ℤ) (now later : ℕ)
        → now ≤ later
        → lt_ℤ (later - now) ttl ≡ true
        → look_up k later (record { key = k; value = v; until = life ttl now } ∷ c) ≡ some v
    self c k v (pos ttl) now later le h = ground (arith, eq_refl k)
    self c k v (negsuc d) now later le h = ground (arith, eq_refl k)

abbrev real_1 : RealRow
real_1 = record {
  id = "r1";
  name = "first";
  access_token = "sk-1";
  refresh_token = "";
  is_active = 1;
  failure_count = 4;
  last_failure_at = none;
  last_used_at = none;
  total_input_tokens = 10;
  total_output_tokens = 20;
  created_at = "";
  updated_at = "";
}

abbrev real_2 : RealRow
real_2 = record real_1 { id = "r2"; name = "second"; access_token = "sk-2"; failure_count = 0 }

abbrev gate_1 : GateRow
gate_1 = record {
  id = "g1";
  token = "gate-1";
  name = "agent";
  is_active = 1;
  total_input_tokens = 5;
  total_output_tokens = 6;
  created_at = "";
  updated_at = "";
}

abbrev log_1 : UsageLog
log_1 = record {
  id = 0;
  gate_token_id = "g1";
  real_token_id = "r1";
  model = "m";
  input_tokens = 3;
  output_tokens = 4;
  cache_creation_input_tokens = 0;
  cache_read_input_tokens = 0;
  request_path = "/v1/messages";
  status_code = 200;
  created_at = "";
}

-- Two real tokens, one gate token bound to the first, and one log.
abbrev sample : Db
sample = record {
  real_tokens = real_1 ∷ real_2 ∷ [];
  gate_tokens = gate_1 ∷ [];
  usage_logs = log_1 ∷ [];
  sticky_sessions = record { gate_token_id = "g1"; real_token_id = "r1"; expires_at = "t" } ∷ [];
  next_log_id = 1;
}

sample-IsWellFormed : IsWellFormed sample
unfolding exists
sample-IsWellFormed = record {
  real_ids = (refl, (refl, tt));
  real_access = (refl, (refl, tt));
  gate_ids = (refl, tt);
  gate_texts = (refl, tt);
  sticky_gates = (refl, tt);
  sticky_refs = (refl, tt);
  log_refs = (refl, tt);
  log_ids = (omega arith, tt);
}
