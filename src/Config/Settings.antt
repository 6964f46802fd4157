-- ===== src/Config/Settings.antt =====
-- What Load makes of the environment, and what Validate says of it.
use claude_gate.Prelude.{
  String, ◌≡◌, ◌≢◌, refl, Bool, true, false, not, ◌&&◌, ◌||◌, ◌==◌, eq_iff, Option, none, some,
  List, [], ◌∷◌, arith, if◌then◌else◌, Bool-cases, Option-cases, inl, inr, ℤ,
}
use claude_gate.Config.{
  Config, System, Warning, invalid_ttl, invalid_failures, invalid_url, missing_dir, loaded, load,
  validate, ttl_key, failures_key, default_ttl, default_failures, is_none, or_int, env_or,
  env_duration, env_int,
}

abbrev is_ttl : Warning → Bool
is_ttl (invalid_url url) = false
is_ttl (missing_dir dir) = false
is_ttl (invalid_ttl v ttl) = true
is_ttl (invalid_failures v n) = false

abbrev is_failures : Warning → Bool
is_failures (invalid_url url) = false
is_failures (missing_dir dir) = false
is_failures (invalid_ttl v ttl) = false
is_failures (invalid_failures v n) = true

abbrev any : (Warning → Bool) → List Warning → Bool
any p [] = false
any p (w ∷ ws) = p w || any p ws

abbrev pub warns_ttl : List Warning → Bool
warns_ttl = any is_ttl

abbrev pub warns_failures : List Warning → Bool
warns_failures = any is_failures

-- A setting with the text `v` and the value `used`: a warning, the text does not parse and the default
-- is used; or none, and the text is empty and the default is used, or it parses to the value.
pub data Accounted (v : String) (parse : String → Option ℤ) (fallback used : ℤ)
    : Bool → Type 0 where
  warned : v ≢ "" → parse v ≡ none → used ≡ fallback → Accounted v parse fallback used true
  unset : v ≡ "" → used ≡ fallback → Accounted v parse fallback used false
  given : parse v ≡ some used → Accounted v parse fallback used false

abbrev warns : (String → Option ℤ) → String → Bool
warns parse v = not (v == "") && is_none (parse v)

abbrev or_default : (String → Option ℤ) → ℤ → String → ℤ
or_default parse fallback v = if v == "" then fallback else or_int fallback (parse v)

setting-Accounted :
    (parse : String → Option ℤ) (fallback : ℤ) (v : String)
    → Accounted v parse fallback (or_default parse fallback v) (warns parse v)
setting-Accounted parse fallback v = elim (Bool-cases (v == "")) [
  | inl empty ↦ rw empty (unset (ground (arith, eq_iff v "")) refl)
  | inr some_text ↦ elim (Option-cases (parse v)) [
    | inl bad ↦ rw (some_text, bad) (warned (λ h. ground (arith, eq_iff v "")) bad refl)
    | inr (n, good) ↦ rw (some_text, good) (given good)
  ]
]

module _ (sys : System) (c : Config) where
  validate-warns :
      (warns_ttl (validate sys c) ≡ warns sys.parse_duration (sys.getenv ttl_key))
      × (warns_failures (validate sys c) ≡ warns sys.atoi (sys.getenv failures_key))
  unfolding validate
  validate-warns = (ground arith, ground arith)

  load_settings :
      load sys ≡ loaded c
      → (c.sticky_ttl ≡ or_default sys.parse_duration default_ttl (sys.getenv ttl_key))
        × (c.max_failures ≡ or_default sys.atoi default_failures (sys.getenv failures_key))
        × (c.admin_secret ≢ "")
  unfolding load env_or env_duration env_int
  load_settings h = elim (Bool-cases (sys.getenv "CLAUDE_GATE_ADMIN_SECRET" == "")) [
    | inl empty ↦ absurd (ground arith)
    | inr secret ↦ (
      ground arith,
      ground arith,
      λ e. ground (arith, eq_iff (sys.getenv "CLAUDE_GATE_ADMIN_SECRET") ""),
    )
  ]

  -- A configuration that Load returns has an admin secret that is not empty, and no setting is
  -- silently replaced: of CLAUDE_GATE_STICKY_TTL and of CLAUDE_GATE_MAX_FAILURES, either the variable
  -- does not parse, the default is used and Validate warns of it, or Validate gives no such warning
  -- and the value is the parsed one, or the default if the variable is not set or empty.
  pub load-Accounted :
      load sys ≡ loaded c
      → (c.admin_secret ≢ "")
        × Accounted
            (sys.getenv ttl_key)
            sys.parse_duration
            default_ttl
            c.sticky_ttl
            (warns_ttl (validate sys c))
        × Accounted
            (sys.getenv failures_key)
            sys.atoi
            default_failures
            c.max_failures
            (warns_failures (validate sys c))
  load-Accounted h =
      let set = load_settings h in
      (
        set.2,
        rw (validate-warns.0, set.0) (setting-Accounted sys.parse_duration default_ttl _),
        rw (validate-warns.1, set.1) (setting-Accounted sys.atoi default_failures _),
      )
