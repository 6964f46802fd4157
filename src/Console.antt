-- ===== src/Console.antt =====
-- The management side of cmd/claude-gate/main.go: the admin API with the dashboard's sessions as its
-- other way in, and the token manager that it tells of each change of the real tokens.
pub mod Access
pub mod Answered
pub mod SignedIn
pub mod Retirement
pub mod Serving
pub mod Consistent
pub mod Quiet
pub mod Live
pub mod Converge
pub mod Untouched
pub mod Affinity
pub mod Undone
pub mod Refused
pub mod Alike
pub mod Secrets
use claude_gate.Prelude.{ℕ, String, Bool, Option, some}
use claude_gate.Store.Engine.{Engine, Io}
use claude_gate.Token.Manager.{Manager, refresh_pool}
use claude_gate.Web.Sessions.{SessionApi, validate_session}
use claude_gate.Web.Pages.{PageIo, PageRequest, PageRoute, PageReply, visit}
use claude_gate.Admin.Http.{AdminRequest, AdminReply, Codecs}
use claude_gate.Admin.Creation.{Draws}
use claude_gate.Admin.Routes.{Route, admin_auth, new_admin_handler, handle}

pub record Console (C : Type 0) (D : Type 0) : Type 0 where
  pub manager : Manager C
  pub sessions : D

-- The callback that main hands to NewAdminHandler.
abbrev pub on_pool_changed : {C : Type 0} → ℕ → Manager C → Manager C
on_pool_changed now m = (refresh_pool now m).1

-- A request to the management side: one to a route of the admin API, or one to a page behind
-- requireAuth.
pub data Demand : Type 0 where
  asks_api : Io → Draws → Route → AdminRequest → Demand
  asks_page : PageIo → PageRequest → PageRoute → Demand

pub data Answer : Type 0 where
  api_answer : AdminReply → Answer
  page_answer : PageReply → Answer

module _ {C D : Type 0} (c : Codecs) (e : Engine) (a : SessionApi D) (admin_secret : String) where
  -- A handler of the admin API on the console.
  abbrev pub handled : Io → Draws → Route → AdminRequest → Console C D → AdminReply × Console C D
  handled io d route r s =
      let (reply, m) =
        handle c (new_admin_handler (some (on_pool_changed io.now))) e io d route r s.manager in
      (reply, record s { manager = m })

  -- ValidateSession, as main hands it to Register.
  abbrev pub session_auth : ℕ → AdminRequest → Console C D → Bool × Console C D
  session_auth now r s =
      let (valid, d) = validate_session a now r.cookie s.sessions in
      (valid, record s { sessions = d })

  unfoldable pub serve_admin :
      Io → Draws → Route → AdminRequest → Console C D → AdminReply × Console C D
  serve_admin io d route = admin_auth admin_secret (some (session_auth io.now)) (handled io d route)

  -- What the mux does with a request.
  unfoldable pub answer : Demand → Console C D → Answer × Console C D
  unfolding serve_admin visit
  answer (asks_api io d route r) s =
      let (reply, s') = serve_admin io d route r s in (api_answer reply, s')
  answer (asks_page io r p) s =
      let (reply, d) = visit a e io r p s.manager.sticky.store s.sessions in
      (page_answer reply, record s { sessions = d })
