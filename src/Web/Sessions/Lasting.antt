-- ===== src/Web/Sessions/Lasting.antt =====
-- A login session over later logins, logouts and checks.
use claude_gate.Prelude.{
  ℕ, String, ◌+◌, ◌<◌, ◌≤◌, ◌≡◌, Bool, true, ◌==◌, eq_iff, eq_refl, Option, none, some, arith, not,
  leb, ltb, Bool-cases, inl, inr,
}
use claude_gate.Web.Sessions.{
  SessionApi, IsLastingSessions, session_ttl, session_get, validate_session, login_submit, logout,
}
use claude_gate.Web.Sessions.SignedIn.{WebEvent, logs_in, logs_out, checks, web_step, is_cookie}

-- What leaves the session that was opened at `since` with this token alone: a login that is no
-- earlier, a logout with another cookie or none, and a check before the session's time is over.
abbrev pub keeps : ℕ → String → WebEvent → Bool
keeps since token (logs_in now drawn secret) = leb since now
keeps since token (logs_out cookie) = not (is_cookie token cookie)
keeps since token (checks now cookie) = ltb now (since + session_ttl)

module _ {D : Type 0} (a : SessionApi D) (laws : IsLastingSessions a) (admin_secret token : String)
    (since : ℕ) where
  abbrev pub Lasts : D → Type 0
  Lasts d = laws.lasts d token (since + session_ttl) ≡ true

  pub get-Lasts :
      (now : ℕ) (cookie : Option String) (d : D)
      → now < since + session_ttl
      → Lasts d
      → Lasts (session_get a now cookie d).1
  get-Lasts now none d early h = h
  get-Lasts now (some k) d early h = laws.lasts-get d token k now (since + session_ttl) early h

  set-Lasts : (now : ℕ) (drawn : String) (d : D) → since ≤ now → Lasts d → Lasts (a.set drawn now d)
  set-Lasts now drawn d le h = elim (Bool-cases (drawn == token)) [
    | inl mine ↦
        ground (arith, eq_iff drawn token, laws.lasts-set d drawn now (since + session_ttl))
    | inr other ↦
        laws.lasts-set_ne d token drawn now (since + session_ttl)
          (λ e. ground (arith, eq_iff drawn token)) h
  ]

  pub login-Lasts : (d : D) → Lasts (login_submit a since admin_secret token admin_secret d).1
  unfolding login_submit
  login-Lasts d =
      ground (arith, eq_refl admin_secret, laws.lasts-set d token since (since + session_ttl))

  pub web_step-Lasts :
      (ev : WebEvent) (d : D)
      → keeps since token ev ≡ true
      → Lasts d
      → Lasts (web_step a admin_secret ev d)
  unfolding web_step login_submit logout validate_session
  web_step-Lasts (WebEvent.logs_in now drawn secret) d kept h =
      let set = set-Lasts now drawn d (ground arith) h in ground (arith, set, h)
  web_step-Lasts (WebEvent.logs_out none) d kept h = h
  web_step-Lasts (WebEvent.logs_out (some k)) d kept h =
      laws.lasts-delete_ne d token k (since + session_ttl) (λ e. ground (arith, eq_iff k token)) h
  web_step-Lasts (WebEvent.checks now cookie) d kept h = get-Lasts now cookie d (ground arith) h
