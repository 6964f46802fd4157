-- ===== src/Admin/Reports.antt =====
-- The handlers of internal/admin/handler.go that only read: the two lists and the usage.
use claude_gate.Prelude.{ℕ, List, map}
use claude_gate.Prelude.Result.{Result, ok, err}
use claude_gate.Prelude.Exec.{Exec}
use claude_gate.Store.Rows.{Db, RealToken, GateToken}
use claude_gate.Store.Engine.{Engine, Io}
use claude_gate.Store.RealTokens.{list_real_tokens}
use claude_gate.Store.GateTokens.{list_gate_tokens}
use claude_gate.Store.Usage.{
  UsageStats, get_usage_stats, get_usage_stats_by_real_token, get_usage_stats_by_gate_token,
}
use claude_gate.Token.Manager.{Manager, on_store}
use claude_gate.Admin.Http.{
  AdminRequest, AdminReply, data_json, error_json, Codecs, real_list, gate_list, usage_stats,
  sanitize_real_token, parse_since,
}

abbrev pub real_list_reply : Result (List RealToken) → AdminReply
real_list_reply (err x) = error_json 500 "failed to list real tokens"
real_list_reply (ok ts) = data_json 200 (real_list (map sanitize_real_token ts))

abbrev pub gate_list_reply : Result (List GateToken) → AdminReply
gate_list_reply (err x) = error_json 500 "failed to list gate tokens"
gate_list_reply (ok ts) = data_json 200 (gate_list ts)

abbrev pub usage_reply : Result UsageStats → AdminReply
usage_reply (err x) = error_json 500 "failed to get usage stats"
usage_reply (ok stats) = data_json 200 (usage_stats stats)

module _ {C : Type 0} where
  unfoldable pub list_real : Engine → Io → Manager C → AdminReply × Manager C
  list_real e io m = let (res, m') = on_store (list_real_tokens e io) m in (real_list_reply res, m')

  unfoldable pub list_gate : Engine → Io → Manager C → AdminReply × Manager C
  list_gate e io m = let (res, m') = on_store (list_gate_tokens e io) m in (gate_list_reply res, m')

  unfoldable pub handle_usage :
      Codecs → AdminRequest → (ℕ → Exec Db UsageStats) → Manager C → AdminReply × Manager C
  handle_usage c r query m =
      let (res, m') = on_store (query (parse_since c r)) m in (usage_reply res, m')

  unfoldable pub get_usage :
      Codecs → Engine → Io → AdminRequest → Manager C → AdminReply × Manager C
  unfolding handle_usage
  get_usage c e io r = handle_usage c r (get_usage_stats e io)

  unfoldable pub get_usage_by_real_token :
      Codecs → Engine → Io → AdminRequest → Manager C → AdminReply × Manager C
  unfolding handle_usage
  get_usage_by_real_token c e io r = handle_usage c r (get_usage_stats_by_real_token e io r.id)

  unfoldable pub get_usage_by_gate_token :
      Codecs → Engine → Io → AdminRequest → Manager C → AdminReply × Manager C
  unfolding handle_usage
  get_usage_by_gate_token c e io r = handle_usage c r (get_usage_stats_by_gate_token e io r.id)
