-- ===== src/Console/Access.antt =====
-- Who may use the admin API.
use claude_gate.Prelude.{ℕ, String, ◌≡◌, refl, Bool, false, Option, none, some, List, arith}
use claude_gate.Prelude.Bytes.{cut_prefix}
use claude_gate.Store.Engine.{Engine}
use claude_gate.Token.Manager.{Manager}
use claude_gate.Web.Sessions.{
  SessionApi, IsSessions, validate_session, require_auth, see_other, unchanged,
}
use claude_gate.Web.Sessions.SignedIn.{WebEvent, web_run, signed_in, validate_session-signed_in}
use claude_gate.Admin.Http.{error_json, Codecs}
use claude_gate.Admin.Routes.{bearer_matches, admin_auth}
use claude_gate.Console.{
  Console, serve_admin, Demand, asks_api, asks_page, Answer, api_answer, page_answer, answer,
}
use claude_gate.Web.Pages.{redirected, visit}

-- The cookie, if there is one, is signed in after the events.
abbrev pub cookie_signed_in : String → List WebEvent → Option String → Bool
cookie_signed_in admin_secret evs none = false
cookie_signed_in admin_secret evs (some token) = signed_in admin_secret token evs false

module _ {D : Type 0} (a : SessionApi D) (laws : IsSessions a) (admin_secret : String) where
  cookie_refused :
      (evs : List WebEvent) (now : ℕ) (cookie : Option String)
      → cookie_signed_in admin_secret evs cookie ≡ false
      → (validate_session a now cookie (web_run a admin_secret evs a.new)).0 ≡ false
  unfolding validate_session
  cookie_refused evs now none off = refl
  cookie_refused evs now (some token) off =
      unfold validate_session in validate_session-signed_in a laws admin_secret token evs now off

-- The secret and the cookie that a request shows.
abbrev pub shows_secret : String → Demand → Bool
shows_secret admin_secret (asks_api io d route r) =
    bearer_matches admin_secret (cut_prefix r.authorization "Bearer ")
shows_secret admin_secret (asks_page io r p) = false

abbrev pub cookie_of : Demand → Option String
cookie_of (asks_api io d route r) = r.cookie
cookie_of (asks_page io r p) = r.cookie

abbrev pub refusal : Demand → Answer
refusal (asks_api io d route r) = api_answer (error_json 401 "missing or invalid authorization")
refusal (asks_page io r p) = page_answer (redirected (see_other "/admin/login" unchanged))

module _ {C D : Type 0} (c : Codecs) (e : Engine) (a : SessionApi D) (laws : IsSessions a)
    (admin_secret : String) where
  -- After any history of logins, logouts and checks of sessions, a request to any route of the admin
  -- API or to any page behind the login is refused, with an answer that the database has no part in,
  -- and changes nothing in the database, the pool, the sticky cache or the refresh timer, if it shows
  -- no bearer token that is the admin secret (a page takes none) and its cookie is missing or not
  -- signed in: since the last logout with it, no login that submitted the admin secret drew it.
  pub answer_unauthorized :
      (q : Demand) (m : Manager C) (evs : List WebEvent)
      → shows_secret admin_secret q ≡ false
      → cookie_signed_in admin_secret evs (cookie_of q) ≡ false
      → let s : Console C D = record { manager = m; sessions = web_run a admin_secret evs a.new } in
        ((answer c e a admin_secret q s).0 ≡ refusal q)
        × ((answer c e a admin_secret q s).1.manager ≡ m)
  unfolding answer serve_admin admin_auth visit require_auth
  answer_unauthorized (asks_api io d route r) m evs no_bearer no_cookie =
      let refused = cookie_refused a laws admin_secret evs io.now r.cookie no_cookie in
      (ground arith, ground arith)
  answer_unauthorized (asks_page io r p) m evs no_bearer no_cookie =
      let refused = cookie_refused a laws admin_secret evs io.now r.cookie no_cookie in
      unfold validate_session in (ground arith, ground arith)
