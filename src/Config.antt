-- ===== src/Config.antt =====
-- internal/config/config.go and SetupLogger of internal/logging/logging.go. The environment, the parsers
-- of the standard library and the file system are parameters.
pub mod Settings
use claude_gate.Prelude.{
  ◌&&◌, ◌||◌, ℕ, String, ◌≡◌, ◌≢◌, refl, Bool, true, false, not, ◌==◌, eqb, eq_iff, Option, none,
  some, List, [], ◌∷◌, ◌++◌, arith, if◌then◌else◌, Bool-cases, Option-cases, ◌⊎◌, inl, inr, ℤ, pos,
  negsuc,
}

pub record Config : Type 0 where
  pub addr : String
  pub db_path : String
  pub admin_secret : String
  pub upstream_url : String
  pub sticky_ttl : ℤ
  pub max_failures : ℤ
  pub log_level : String

-- os.Getenv, empty for a variable that is not set; time.ParseDuration in nanoseconds and strconv.Atoi,
-- `none` for an error; the scheme that url.Parse finds, `none` for an error; filepath.Dir; and whether
-- os.Stat of a directory ends with an error that IsNotExist accepts.
pub record System : Type 0 where
  pub getenv : String → String
  pub parse_duration : String → Option ℤ
  pub atoi : String → Option ℤ
  pub url_scheme : String → Option String
  pub dir_of : String → String
  pub is_missing : String → Bool

abbrev pub ttl_key : String
ttl_key = "CLAUDE_GATE_STICKY_TTL"

abbrev pub failures_key : String
failures_key = "CLAUDE_GATE_MAX_FAILURES"

-- 10 * time.Minute, in nanoseconds.
abbrev pub default_ttl : ℤ
default_ttl = pos 600000000000

abbrev pub default_failures : ℤ
default_failures = pos 5

abbrev pub or_int : ℤ → Option ℤ → ℤ
or_int fallback none = fallback
or_int fallback (some n) = n

-- The slog warnings of Validate, with their attributes.
pub data Warning : Type 0 where
  invalid_url : String → Warning
  missing_dir : String → Warning
  invalid_ttl : String → ℤ → Warning
  invalid_failures : String → ℤ → Warning

pub data Loaded : Type 0 where
  loaded : Config → Loaded
  load_failed : String → Loaded

abbrev pub is_none : {A : Type 0} → Option A → Bool
is_none none = true
is_none (some x) = false

-- `err != nil || u.Scheme == ""`.
abbrev bad_scheme : Option String → Bool
bad_scheme none = true
bad_scheme (some scheme) = scheme == ""

abbrev when : Bool → Warning → List Warning
when b w = if b then w ∷ [] else []

module _ (sys : System) where
  unfoldable pub env_or : String → String → String
  env_or key fallback = let v = sys.getenv key in if v == "" then fallback else v

  unfoldable pub env_duration : String → ℤ → ℤ
  env_duration key fallback =
      let v = sys.getenv key in if v == "" then fallback else or_int fallback (sys.parse_duration v)

  unfoldable pub env_int : String → ℤ → ℤ
  env_int key fallback =
      let v = sys.getenv key in if v == "" then fallback else or_int fallback (sys.atoi v)

  unfoldable pub load : Loaded
  unfolding env_or env_duration env_int
  load =
      let cfg : Config = record {
        addr = env_or "CLAUDE_GATE_ADDR" ":8080";
        db_path = env_or "CLAUDE_GATE_DB_PATH" "./claude-gate.db";
        admin_secret = sys.getenv "CLAUDE_GATE_ADMIN_SECRET";
        upstream_url = env_or "CLAUDE_GATE_UPSTREAM_URL" "https://api.anthropic.com";
        sticky_ttl = env_duration ttl_key default_ttl;
        max_failures = env_int failures_key default_failures;
        log_level = env_or "CLAUDE_GATE_LOG_LEVEL" "info";
      } in
      if cfg.admin_secret == ""
      then load_failed "CLAUDE_GATE_ADMIN_SECRET is required"
      else loaded cfg

  -- Validate, which gives the warnings in order.
  unfoldable pub validate : Config → List Warning
  validate c =
      let dir = sys.dir_of c.db_path in
      let ttl = sys.getenv ttl_key in
      let failures = sys.getenv failures_key in
      when (bad_scheme (sys.url_scheme c.upstream_url)) (invalid_url c.upstream_url)
      ++ when (not (dir == ".") && not (dir == "") && sys.is_missing dir) (missing_dir dir)
      ++ when (not (ttl == "") && is_none (sys.parse_duration ttl)) (invalid_ttl ttl c.sticky_ttl)
      ++ when (not (failures == "") && is_none (sys.atoi failures))
          (invalid_failures failures c.max_failures)

pub data Level : Type 0 where
  debug info warn error : Level

-- The level of SetupLogger; strings.ToLower is a parameter.
unfoldable pub setup_logger : (String → String) → String → Level
setup_logger to_lower level =
    let l = to_lower level in
    if l == "debug"
    then debug
    else (if l == "warn" then warn else (if l == "error" then error else info))
