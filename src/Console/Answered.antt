-- ===== src/Console/Answered.antt =====
-- The form of every answer of the admin API, the middleware of internal/admin/middleware.go included.
use claude_gate.Prelude.{String, ◌≡◌, refl, Bool, false, ◌⊎◌, inl, inr, some, Bool-cases}
use claude_gate.Prelude.Bytes.{cut_prefix}
use claude_gate.Store.Engine.{Engine, Io}
use claude_gate.Web.Sessions.{SessionApi, validate_session}
use claude_gate.Httputil.{HttpAnswer, write_json_error}
use claude_gate.Admin.Http.{AdminRequest, Codecs}
use claude_gate.Admin.Creation.{Draws}
use claude_gate.Admin.Routes.{Route, bearer_matches, admin_auth, new_admin_handler}
use claude_gate.Admin.Answers.{Encoder, write_error, written, IsJson, Protocol}
use claude_gate.Admin.Answered.{handle_answered}
use claude_gate.Console.{Console, on_pool_changed, serve_admin}

module _ {C D : Type 0} (enc : Encoder) (c : Codecs) (e : Engine) (a : SessionApi D)
    (admin_secret : String) (io : Io) (d : Draws) (route : Route) (r : AdminRequest)
    (s : Console C D) where
  abbrev pub shows_bearer : Bool
  shows_bearer = bearer_matches admin_secret (cut_prefix r.authorization "Bearer ")

  abbrev pub shows_session : Bool
  shows_session = (validate_session a io.now r.cookie s.sessions).0

  abbrev pub admin_answer : HttpAnswer
  admin_answer = written enc (serve_admin c e a admin_secret io d route r s).0

  -- Every answer of the admin API, whatever the request and whatever fails, has one of three forms:
  -- JSON with the status 401, only if the request shows neither the admin secret nor a valid session;
  -- JSON with the status 200, 201, 400, 404 or 500; or, only for a form or a request of htmx, the
  -- status 204 with HX-Redirect and no body.
  pub serve_admin_answered :
      ((shows_bearer ≡ false)
        × (shows_session ≡ false)
        × IsJson admin_answer
        × (admin_answer.status ≡ 401))
      ⊎ Protocol r admin_answer
  unfolding serve_admin admin_auth written write_error write_json_error
  serve_admin_answered =
      let changed = new_admin_handler (some (on_pool_changed io.now)) in
      let form = handle_answered enc r c e io d changed s.manager route in
      elim (Bool-cases shows_bearer) [
        | inl shown ↦ inr (rw shown form)
        | inr hidden ↦ elim (Bool-cases shows_session) [
          | inl valid ↦ inr (rw (hidden, valid) form)
          | inr stranger ↦
              inl (hidden, stranger, rw (hidden, stranger) refl, rw (hidden, stranger) refl)
        ]
      ]
