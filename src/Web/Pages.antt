-- ===== src/Web/Pages.antt =====
-- The pages of web/handler.go: what they hand to the templates. Parsing and executing the templates is
-- not modelled.
use claude_gate.Prelude.{
  ℕ, suc, String, Bool, Option, List, [], ◌∷◌, length, if◌then◌else◌, ℤ, negsuc, add_time,
}
use claude_gate.Prelude.Result.{Error, Result, ok, err}
use claude_gate.Store.Rows.{Db, RealToken, GateToken}
use claude_gate.Store.Engine.{Engine, Io}
use claude_gate.Store.RealTokens.{list_real_tokens}
use claude_gate.Store.GateTokens.{list_gate_tokens}
use claude_gate.Store.Usage.{
  UsageStats, get_usage_stats, get_usage_stats_by_real_token, get_usage_stats_by_gate_token,
}
use claude_gate.Web.Sessions.{SessionApi, LoginReply, require_auth}

-- The data of dashboard.html.
pub record Dashboard : Type 0 where
  pub real_token_count : ℕ
  pub active_real_token_count : ℕ
  pub gate_token_count : ℕ
  pub active_gate_token_count : ℕ
  pub usage_24h : UsageStats

-- The map cacheStats, one pair for each token in the order of the list.
abbrev pub CacheStats : Type 0
CacheStats = List (String × UsageStats)

-- A page with the data of its template, http.Error with the status 500, or a redirect.
pub data PageReply : Type 0 where
  dashboard_page : Dashboard → PageReply
  real_tokens_page : List RealToken → CacheStats → String → PageReply
  gate_tokens_page : List GateToken → CacheStats → String → String → PageReply
  server_error : Error → PageReply
  redirected : LoginReply → PageReply

-- The query's values, empty where the query has none.
pub record PageRequest : Type 0 where
  pub cookie : Option String
  pub flash : String
  pub new_token : String

-- The conditions of a page's queries.
pub record PageIo : Type 0 where
  pub now : ℕ
  pub real_list : Io
  pub gate_list : Io
  pub usage : Io
  pub stats : String → Io

-- 24 hours before, in nanoseconds.
abbrev pub day_before : ℤ
day_before = negsuc 86399999999999

-- time.Unix(0, 0): 62135596800 seconds after the origin of the instants.
abbrev pub epoch : ℕ
epoch = 62135596800000000000

abbrev pub count_active : {A : Type 0} → (A → Bool) → List A → ℕ
count_active is_active [] = 0
count_active is_active (t ∷ ts) =
    let n = count_active is_active ts in if is_active t then suc n else n

-- An error ends the page; the queries write nothing.
abbrev pub or_fail : {A : Type 0} → Result A → (A → PageReply) → PageReply
or_fail (ok a) f = f a
or_fail (err x) f = server_error x

abbrev pub with_stats : String → Result UsageStats → Result CacheStats → Result CacheStats
with_stats id (err x) rest = err x
with_stats id (ok u) (err x) = err x
with_stats id (ok u) (ok rest) = ok ((id, u) ∷ rest)

-- The loop that fills cacheStats, with the query of a token's usage.
unfoldable pub cache_stats :
    {A : Type 0} → (A → String) → (String → Result UsageStats) → List A → Result CacheStats
cache_stats id_of query [] = ok []
cache_stats id_of query (t ∷ ts) =
    let rest = cache_stats id_of query ts in with_stats (id_of t) (query (id_of t)) rest

unfoldable pub dashboard : Engine → PageIo → Db → PageReply
dashboard e io db = or_fail (list_real_tokens e io.real_list db).0 λ real.
    or_fail (list_gate_tokens e io.gate_list db).0 λ gate.
      or_fail (get_usage_stats e io.usage (add_time io.now day_before) db).0 λ usage.
        dashboard_page (record {
          real_token_count = length real;
          active_real_token_count = count_active (λ t. t.is_active) real;
          gate_token_count = length gate;
          active_gate_token_count = count_active (λ t. t.is_active) gate;
          usage_24h = usage;
        })

unfoldable pub show_real_tokens : Engine → PageIo → PageRequest → Db → PageReply
unfolding cache_stats
show_real_tokens e io r db = or_fail (list_real_tokens e io.real_list db).0 λ tokens.
    or_fail
      (cache_stats (λ t. t.id) (λ id. (get_usage_stats_by_real_token e (io.stats id) id epoch db).0)
        tokens)
      λ stats. real_tokens_page tokens stats r.flash

unfoldable pub show_gate_tokens : Engine → PageIo → PageRequest → Db → PageReply
unfolding cache_stats
show_gate_tokens e io r db = or_fail (list_gate_tokens e io.gate_list db).0 λ tokens.
    or_fail
      (cache_stats (λ t. t.id) (λ id. (get_usage_stats_by_gate_token e (io.stats id) id epoch db).0)
        tokens)
      λ stats. gate_tokens_page tokens stats r.flash r.new_token

-- The routes that RegisterRoutes puts behind requireAuth.
pub data PageRoute : Type 0 where
  to_dashboard to_real_tokens to_gate_tokens : PageRoute

unfoldable pub page : Engine → PageIo → PageRequest → PageRoute → Db → PageReply
unfolding dashboard show_real_tokens show_gate_tokens
page e io r to_dashboard db = dashboard e io db
page e io r to_real_tokens db = show_real_tokens e io r db
page e io r to_gate_tokens db = show_gate_tokens e io r db

module _ {D : Type 0} (a : SessionApi D) where
  unfoldable pub visit : Engine → PageIo → PageRequest → PageRoute → Db → D → PageReply × D
  unfolding require_auth page
  visit e io r p db d = require_auth a redirected io.now r.cookie (page e io r p db) d

-- The headers that WrapMux sets on every answer.
unfoldable pub security_headers : List (String × String)
security_headers =
    ("X-Frame-Options", "DENY")
    ∷ ("X-Content-Type-Options", "nosniff")
    ∷ (
      "Content-Security-Policy",
      "default-src 'self'; script-src 'self' 'unsafe-inline'; style-src 'self' 'unsafe-inline'",
    )
    ∷ []
