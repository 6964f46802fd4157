-- ===== src/Web/Sessions/SignedIn.antt =====
-- Histories of logins, logouts and checks of a session.
use claude_gate.Prelude.{
  ℕ, String, ◌≡◌, Bool, true, false, ◌==◌, eq_iff, Option, none, some, List, [], ◌∷◌, arith,
  if◌then◌else◌, Bool-cases, inl, inr,
}
use claude_gate.Web.Sessions.{SessionApi, IsSessions, validate_session, login_submit, logout}

-- `logs_in now token secret` submits a secret, `token` being drawn; `logs_out` and `checks` have the
-- cookie of the request.
pub data WebEvent : Type 0 where
  logs_in : ℕ → String → String → WebEvent
  logs_out : Option String → WebEvent
  checks : ℕ → Option String → WebEvent

module _ {D : Type 0} (a : SessionApi D) (admin_secret : String) where
  unfoldable pub web_step : WebEvent → D → D
  web_step (logs_in now token secret) d = (login_submit a now admin_secret token secret d).1
  web_step (logs_out cookie) d = (logout a cookie d).1
  web_step (checks now cookie) d = (validate_session a now cookie d).1

  unfoldable pub web_run : List WebEvent → D → D
  unfolding web_step
  web_run [] d = d
  web_run (ev ∷ evs) d = web_run evs (web_step ev d)

-- The token is signed in after the events: since the last logout with it, a login that submitted the
-- admin secret drew it.
abbrev pub is_cookie : String → Option String → Bool
is_cookie token none = false
is_cookie token (some k) = k == token

abbrev pub after_event : String → String → WebEvent → Bool → Bool
after_event admin_secret token (logs_in now drawn secret) was =
    if secret == admin_secret then (if drawn == token then true else was) else was
after_event admin_secret token (logs_out cookie) was = if is_cookie token cookie then false else was
after_event admin_secret token (checks now cookie) was = was

unfoldable pub signed_in : String → String → List WebEvent → Bool → Bool
signed_in admin_secret token [] was = was
signed_in admin_secret token (ev ∷ evs) was =
    signed_in admin_secret token evs (after_event admin_secret token ev was)

module _ {D : Type 0} (a : SessionApi D) (laws : IsSessions a) (admin_secret token : String) where
  -- What is not signed in is not in the cache.
  abbrev Sound : Bool → D → Type 0
  Sound was d = was ≡ false → laws.holds d token ≡ false

  step-Sound :
      (ev : WebEvent) (was : Bool) (d : D)
      → Sound was d
      → Sound (after_event admin_secret token ev was) (web_step a admin_secret ev d)
  unfolding web_step login_submit logout validate_session
  step-Sound (WebEvent.logs_in now drawn secret) was d h off =
      elim (Bool-cases (secret == admin_secret)) [
        | inl right ↦ elim (Bool-cases (drawn == token)) [
          | inl mine ↦ ground arith
          | inr other ↦ ground (
            arith,
            eq_iff drawn token,
            laws.holds-set d token drawn now (λ e. ground (arith, eq_iff drawn token)),
            h,
          )
        ]
        | inr wrong ↦ ground (arith, h)
      ]
  step-Sound (WebEvent.logs_out none) was d h off = h off
  step-Sound (WebEvent.logs_out (some k)) was d h off = elim (Bool-cases (k == token)) [
    | inl mine ↦ ground (arith, eq_iff k token, laws.holds-delete d token)
    | inr other ↦ ground (
      arith,
      eq_iff k token,
      laws.holds-delete_ne d token k (λ e. ground (arith, eq_iff k token)),
      h,
    )
  ]
  step-Sound (WebEvent.checks now none) was d h off = h off
  step-Sound (WebEvent.checks now (some k)) was d h off = laws.holds-get d token k now (h off)

  run-Sound :
      (evs : List WebEvent) (was : Bool) (d : D)
      → Sound was d
      → Sound (signed_in admin_secret token evs was) (web_run a admin_secret evs d)
  unfolding web_run signed_in
  run-Sound [] was d h = h
  run-Sound (ev ∷ evs) was d h =
      run-Sound evs (after_event admin_secret token ev was) (web_step a admin_secret ev d)
        (step-Sound ev was d h)

  -- After any history of logins, logouts and checks, from the cache that the handler starts with, a
  -- session is valid only for a token that is signed in: a login that submitted the admin secret drew
  -- it, and no logout with it came later.
  pub validate_session-signed_in :
      (evs : List WebEvent) (now : ℕ)
      → signed_in admin_secret token evs false ≡ false
      → (validate_session a now (some token) (web_run a admin_secret evs a.new)).0 ≡ false
  unfolding validate_session
  validate_session-signed_in evs now off =
      laws.get-holds (web_run a admin_secret evs a.new) token now
        (run-Sound evs false a.new (λ h. laws.holds-new token) off)
