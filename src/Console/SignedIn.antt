-- ===== src/Console/SignedIn.antt =====
-- What a login to the dashboard gives, for as long as its session lives.
use claude_gate.Prelude.{
  ℕ, String, ◌+◌, ◌<◌, ◌≡◌, refl, Bool, true, ◌&&◌, some, List, [], ◌∷◌, arith, ltb,
}
use claude_gate.Store.Engine.{Engine}
use claude_gate.Token.Manager.{Manager}
use claude_gate.Web.Sessions.{
  SessionApi, IsLastingSessions, session_ttl, validate_session, require_auth,
}
use claude_gate.Web.Sessions.SignedIn.{WebEvent, logs_in, web_step}
use claude_gate.Web.Sessions.Lasting.{keeps, Lasts, get-Lasts, login-Lasts, web_step-Lasts}
use claude_gate.Web.Pages.{page, visit}
use claude_gate.Admin.Http.{Codecs}
use claude_gate.Admin.Routes.{admin_auth, new_admin_handler, handle}
use claude_gate.Console.{
  Console, on_pool_changed, Demand, asks_api, asks_page, Answer, api_answer, page_answer,
  serve_admin, answer,
}
use claude_gate.Console.Access.{cookie_of}

-- A request to the management side, or a login, a logout or a check of a session.
pub data Visit : Type 0 where
  asks : Demand → Visit
  comes : WebEvent → Visit

abbrev pub instant_of : Demand → ℕ
instant_of (asks_api io d route r) = io.now
instant_of (asks_page io r p) = io.now

-- What leaves the session alone, each request being made before its time is over.
abbrev pub spares : ℕ → String → Visit → Bool
spares since token (asks q) = ltb (instant_of q) (since + session_ttl)
spares since token (comes ev) = keeps since token ev

unfoldable pub spare_all : ℕ → String → List Visit → Bool
spare_all since token [] = true
spare_all since token (v ∷ vs) = spares since token v && spare_all since token vs

module _ {C D : Type 0} (c : Codecs) (e : Engine) (a : SessionApi D) (admin_secret : String) where
  abbrev pub visited : Visit → Console C D → Console C D
  visited (asks q) s = (answer c e a admin_secret q s).1
  visited (comes ev) s = record s { sessions = web_step a admin_secret ev s.sessions }

  unfoldable pub visited_all : List Visit → Console C D → Console C D
  visited_all [] s = s
  visited_all (v ∷ vs) s = visited_all vs (visited v s)

-- What the handler behind the two middlewares does with a request.
abbrev pub granted : {C : Type 0} → Codecs → Engine → Demand → Manager C → Answer × Manager C
granted c e (asks_api io d route r) m =
    let (reply, m') =
      handle c (new_admin_handler (some (on_pool_changed io.now))) e io d route r m in
    (api_answer reply, m')
granted c e (asks_page io r p) m = (page_answer (page e io r p m.sticky.store), m)

module _ {C D : Type 0} (c : Codecs) (e : Engine) (a : SessionApi D) (laws : IsLastingSessions a)
    (admin_secret token : String) (since : ℕ) where
  abbrev Open : Console C D → Type 0
  Open s = Lasts a laws admin_secret token since s.sessions

  answer-Open :
      (q : Demand) (s : Console C D)
      → instant_of q < since + session_ttl
      → Open s
      → Open (answer c e a admin_secret q s).1
  unfolding answer serve_admin admin_auth visit require_auth validate_session
  answer-Open (asks_api io d route r) s early h =
      let kept = get-Lasts a laws admin_secret token since io.now r.cookie s.sessions early h in
      ground (arith, kept, h)
  answer-Open (asks_page io r p) s early h =
      get-Lasts a laws admin_secret token since io.now r.cookie s.sessions early h

  visited-Open :
      (v : Visit) (s : Console C D)
      → spares since token v ≡ true
      → Open s
      → Open (visited c e a admin_secret v s)
  visited-Open (asks q) s spared h = answer-Open q s (ground arith) h
  visited-Open (comes ev) s spared h =
      web_step-Lasts a laws admin_secret token since ev s.sessions spared h

  visited_all-Open :
      (vs : List Visit) (s : Console C D)
      → spare_all since token vs ≡ true
      → Open s
      → Open (visited_all c e a admin_secret vs s)
  unfolding visited_all spare_all
  visited_all-Open [] s spared h = h
  visited_all-Open (v ∷ vs) s spared h =
      visited_all-Open vs (visited c e a admin_secret v s) (ground arith)
        (visited-Open v s (ground arith) h)

  answer-granted :
      (q : Demand) (s : Console C D)
      → cookie_of q ≡ some token
      → instant_of q < since + session_ttl
      → Open s
      → ((answer c e a admin_secret q s).0 ≡ (granted c e q s.manager).0)
        × ((answer c e a admin_secret q s).1.manager ≡ (granted c e q s.manager).1)
  unfolding answer serve_admin admin_auth visit require_auth validate_session
  answer-granted (asks_api io d route r) s shown early h =
      let found = laws.get-lasts s.sessions token io.now (since + session_ttl) early h in
      (ground (arith, found, shown), ground (arith, found, shown))
  answer-granted (asks_page io r p) s shown early h =
      let found = laws.get-lasts s.sessions token io.now (since + session_ttl) early h in
      (ground (arith, found, shown), refl)

  -- A login lasts: after a login that submitted the admin secret, and for the 24 hours after it, a
  -- request with the session's cookie to any route of the admin API or to any page is answered by its
  -- handler, which alone decides what becomes of the manager, whatever came in between: requests to
  -- the API and to the pages with any cookies and bearer tokens, checks of sessions, and logins and
  -- logouts. Those requests and checks came within the 24 hours, the logins no earlier than the first,
  -- and no logout had this cookie.
  pub answer_signed_in :
      (q : Demand) (vs : List Visit) (s : Console C D)
      → cookie_of q ≡ some token
      → instant_of q < since + session_ttl
      → spare_all since token vs ≡ true
      → let s' = visited_all c e a admin_secret (comes (logs_in since token admin_secret) ∷ vs) s in
        ((answer c e a admin_secret q s').0 ≡ (granted c e q s'.manager).0)
        × ((answer c e a admin_secret q s').1.manager ≡ (granted c e q s'.manager).1)
  unfolding visited_all web_step
  answer_signed_in q vs s shown early spared =
      let opened = visited c e a admin_secret (comes (logs_in since token admin_secret)) s in
      answer-granted q (visited_all c e a admin_secret vs opened) shown early
        (visited_all-Open vs opened spared (login-Lasts a laws admin_secret token since s.sessions))
