-- ===== src/Console/Secrets.antt =====
-- What the admin API tells of the secrets of the real tokens.
use mathlib.Core.Path.{ap₂}
use claude_gate.Prelude.{All, ◌≡◌, refl, Bool, true, false, some, List, [], ◌∷◌, if◌then◌else◌}
use claude_gate.Store.Engine.{Engine, Io}
use claude_gate.Store.Usage.{
  get_usage_stats, get_usage_stats_by_real_token, get_usage_stats_by_gate_token,
}
use claude_gate.Store.Cascade.{real, gate}
use claude_gate.Store.Secrets.Operations.{list_gate_tokens-Blind}
use claude_gate.Token.Manager.{Manager}
use claude_gate.Admin.Http.{AdminRequest, AdminReply, Codecs, is_form_request}
use claude_gate.Admin.Tokens.{update_token}
use claude_gate.Admin.Creation.{Draws, gate_form, create_gate}
use claude_gate.Admin.Reports.{
  gate_list_reply, list_gate, handle_usage, get_usage, get_usage_by_real_token,
  get_usage_by_gate_token,
}
use claude_gate.Admin.Routes.{
  Route, lists, creates, updates, deletes, activates, deactivates, usage_by, usage_all, handle,
}
use claude_gate.Console.{on_pool_changed}
use claude_gate.Console.Alike.{
  OrdersBlind, Alike, Same, stored, switch-Same, deletion-Same, renamed-Same, gate_created-Same,
  usage-Same, listed-Same,
}

-- The routes but the creation of a real token, which looks at the access tokens that are there.
abbrev pub creates_real : Route → Bool
creates_real (creates real) = true
creates_real _ = false

module _ {C : Type 0} (c : Codecs) (e : Engine) (io : Io) (d : Draws) (r : AdminRequest) where
  abbrev changed : Manager C → Manager C
  changed = on_pool_changed io.now

  handle-Same :
      (route : Route) (m m' : Manager C)
      → OrdersBlind e
      → creates_real route ≡ false
      → Alike m m'
      → Same (handle c changed e io d route r m) (handle c changed e io d route r m')
  unfolding handle update_token create_gate list_gate get_usage get_usage_by_real_token
      get_usage_by_gate_token handle_usage get_usage_stats get_usage_stats_by_real_token
      get_usage_stats_by_gate_token
  handle-Same (lists real) m m' orders other h = listed-Same c e io d r m m' orders h
  handle-Same (lists gate) m m' orders other h =
      stored (λ res n. (gate_list_reply res, n)) m m' (list_gate_tokens-Blind io e)
        (λ res n n' h. (refl, h)) h
  handle-Same (creates real) m m' orders other h = cc
  handle-Same (creates gate) m m' orders other h =
      gate_created-Same c e io d r
        (if is_form_request r then some (gate_form r) else c.create_gate r.body) m m' h
  handle-Same (updates k) m m' orders other h = renamed-Same c e io d r k (c.update r.body) m m' h
  handle-Same (deletes real) m m' orders other h = deletion-Same c e io d r real m m' h
  handle-Same (deletes gate) m m' orders other h = deletion-Same c e io d r gate m m' h
  handle-Same (activates real) m m' orders other h = switch-Same c e io d r real true m m' h
  handle-Same (activates gate) m m' orders other h = switch-Same c e io d r gate true m m' h
  handle-Same (deactivates real) m m' orders other h = switch-Same c e io d r real false m m' h
  handle-Same (deactivates gate) m m' orders other h = switch-Same c e io d r gate false m m' h
  handle-Same usage_all m m' orders other h = usage-Same c e io d r _ m m' h
  handle-Same (usage_by real) m m' orders other h = usage-Same c e io d r _ m m' h
  handle-Same (usage_by gate) m m' orders other h = usage-Same c e io d r _ m m' h

-- One request to the admin API behind the middleware.
pub record AdminCall : Type 0 where
  pub io : Io
  pub draws : Draws
  pub route : Route
  pub request : AdminRequest

module _ {C : Type 0} (c : Codecs) (e : Engine) where
  -- The answers to the requests, one after the other.
  unfoldable pub replies : List AdminCall → Manager C → List AdminReply
  replies [] m = []
  replies (q ∷ qs) m =
      let (reply, m') = handle c (on_pool_changed q.io.now) e q.io q.draws q.route q.request m in
      reply ∷ replies qs m'

  -- The admin API tells nothing of the access and refresh tokens of the real tokens: on two databases
  -- that differ in these only, any sequence of requests has the same answers, whatever the engine
  -- does to its calls. The creation of a real token is excepted, as it refuses an access token that is
  -- there; ORDER BY created_at is assumed not to look at the tokens.
  pub replies_blind :
      (qs : List AdminCall) (m m' : Manager C)
      → OrdersBlind e
      → All (λ q. creates_real q.route ≡ false) qs
      → Alike m m'
      → replies qs m ≡ replies qs m'
  unfolding replies
  replies_blind [] m m' orders other h = refl
  replies_blind (q ∷ qs) m m' orders other h =
      let one = handle-Same c e q.io q.draws q.request q.route m m' orders other.0 h in
      ap₂ ◌∷◌ one.0 (replies_blind qs _ _ orders other.1 one.1)
