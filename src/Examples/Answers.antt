-- ===== src/Examples/Answers.antt =====
-- The theorems on the answers of the admin API at a few requests.
use claude_gate.Prelude.{◌≡◌, ◌⊎◌, List, refl, true, false, []}
use claude_gate.Prelude.Bytes.{starts_with, cut_prefix}
use claude_gate.Store.Cascade.{real, delete_real_token}
use claude_gate.Store.Table.{delete, count, exists}
use claude_gate.Admin.Http.{AdminRequest, respond_error}
use claude_gate.Admin.Tokens.{delete_token}
use claude_gate.Admin.Answers.{Encoder, written, IsJson, Protocol}
use claude_gate.Console.Answered.{serve_admin_answered}
use claude_gate.Web.Sessions.{validate_session}
use claude_gate.Httputil.{HttpAnswer}
use claude_gate.Admin.Routes.{deletes, activates, handle, bearer_matches}
use claude_gate.Console.{Console, on_pool_changed, serve_admin}
use claude_gate.Console.Undone.{is_error}
use claude_gate.Console.Refused.{handle-refused}
use claude_gate.Examples.{simple_engine, calm, Item}
use claude_gate.Examples.Tokens.{manager}
use claude_gate.Examples.Consoles.{Logins, list_sessions, codecs, draws, asked}

abbrev encoder : Encoder
encoder = record { error = λ text. []; payload = λ p. [] }

-- A form that asks to switch a real token on, and a request to delete one that is not there.
abbrev form : AdminRequest
form = record asked { content_type = "application/x-www-form-urlencoded" }

abbrev unknown : AdminRequest
unknown = record asked { id = "r9" }

-- A console at which nobody is logged in.
abbrev console : Console (List Item) Logins
console = record { manager = manager; sessions = [] }

abbrev activation : HttpAnswer
activation =
    written encoder
      (serve_admin codecs simple_engine list_sessions "secret" (calm 1) draws (activates real) form
        console).0

serve_admin_answered_example :
    ((bearer_matches "secret" (cut_prefix form.authorization "Bearer ") ≡ false)
      × ((validate_session list_sessions 1 form.cookie []).0 ≡ false)
      × IsJson activation
      × (activation.status ≡ 401))
    ⊎ Protocol form activation
serve_admin_answered_example =
    serve_admin_answered encoder codecs simple_engine list_sessions "secret" (calm 1) draws
      (activates real) form console

refuses :
    is_error
      (handle codecs
        (on_pool_changed 1)
        simple_engine
        (calm 1)
        draws
        (deletes real)
        unknown
        manager).0
    ≡ true
unfolding handle delete_token delete_real_token exists delete count respond_error starts_with
refuses = refl

handle-refused_example :
    (handle codecs
      (on_pool_changed 1)
      simple_engine
      (calm 1)
      draws
      (deletes real)
      unknown
      manager).1
    ≡ manager
handle-refused_example =
    handle-refused codecs simple_engine (calm 1) draws unknown refl (on_pool_changed 1) manager
      (deletes real) refuses
