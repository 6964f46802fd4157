-- ===== src/Examples/Visits.antt =====
-- The theorem on a login that lasts, at a cache of sessions and a console.
use claude_gate.Prelude.{
  ℕ, String, ◌+◌, ◌<◌, ◌≡◌, ◌≢◌, refl, Bool, true, false, ◌==◌, eq_iff, eq_refl, some, List, [],
  ◌∷◌, arith, leb, if◌then◌else◌,
}
use claude_gate.Store.Cascade.{real}
use claude_gate.Web.Sessions.{IsLastingSessions, session_ttl}
use claude_gate.Web.Sessions.SignedIn.{logs_in, logs_out, checks}
use claude_gate.Admin.Routes.{lists, deactivates}
use claude_gate.Console.{Console, Demand, asks_api, answer}
use claude_gate.Console.SignedIn.{
  Visit, asks, comes, visited_all, spare_all, granted, answer_signed_in,
}
use claude_gate.Examples.{simple_engine, calm, Item}
use claude_gate.Examples.Tokens.{manager}
use claude_gate.Examples.Consoles.{Logins, list_sessions, codecs, draws, asked}

-- The newest item of the key lives until the instant.
abbrev lasts : Logins → String → ℕ → Bool
lasts [] k until = false
lasts ((j, t) ∷ c) k until = if j == k then leb until (t + session_ttl) else lasts c k until

lasts-without :
    (c : Logins) (k j : String) (until : ℕ)
    → j ≢ k
    → lasts c k until ≡ true
    → lasts (list_sessions.delete j c) k until ≡ true
lasts-without [] k j until ne h = h
lasts-without ((i, t) ∷ c) k j until ne h =
    ground (arith, lasts-without c k j until ne, eq_iff i j, eq_iff i k)

found-lasts :
    (c : Logins) (k : String) (now until : ℕ)
    → now < until
    → lasts c k until ≡ true
    → (list_sessions.get k now c).0 ≡ true
found-lasts [] k now until early h = ground arith
found-lasts ((j, t) ∷ c) k now until early h = ground (arith, found-lasts c k now until early)

list_sessions-IsLastingSessions : IsLastingSessions list_sessions
list_sessions-IsLastingSessions = record {
  lasts = lasts;
  lasts-set = λ c k now until le. ground (arith, eq_refl k);
  lasts-set_ne = λ c k j now until ne h. ground (arith, eq_iff j k);
  lasts-delete_ne = lasts-without;
  lasts-get = λ c k j now until early h. h;
  get-lasts = found-lasts;
}

-- A list of the real tokens, asked for with the cookie that a login drew, and no bearer token.
abbrev question : Demand
question = asks_api (calm 9) draws (lists real) (record asked { authorization = "" })

-- After that login, another session is opened, checked and closed, and a token is switched off.
abbrev since_then : List Visit
since_then =
    comes (logs_in 5 "c2" "secret")
    ∷ comes (checks 6 (some "c2"))
    ∷ asks (asks_api (calm 7) draws (deactivates real) asked)
    ∷ comes (logs_out (some "c2"))
    ∷ []

all_spared : spare_all 4 "c1" since_then ≡ true
unfolding spare_all
all_spared = refl

abbrev reached : Console (List Item) Logins
reached =
    visited_all codecs simple_engine list_sessions "secret"
      (comes (logs_in 4 "c1" "secret") ∷ since_then) (record { manager = manager; sessions = [] })

answer_signed_in_example :
    ((answer codecs simple_engine list_sessions "secret" question reached).0
      ≡ (granted codecs simple_engine question reached.manager).0)
    × ((answer codecs simple_engine list_sessions "secret" question reached).1.manager
        ≡ (granted codecs simple_engine question reached.manager).1)
answer_signed_in_example =
    answer_signed_in codecs simple_engine list_sessions list_sessions-IsLastingSessions "secret"
      "c1" 4 question since_then (record { manager = manager; sessions = [] }) refl (omega arith)
      all_spared
